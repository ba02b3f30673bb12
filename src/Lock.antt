-- ===== src/Lock.antt =====
-- src/common/gum-lock.c: the counted lock on the database files, built without ENABLE_TESTS.
pub mod Counting
use platform_upstream_gumd.Common.{ℕ, suc, ◌-◌, Bool, true, false, not, ◌==◌, ltb, if◌then◌else◌}

pub record Lock : Type 0 where
  -- `lock_count`
  pub count : ℕ
  -- The process holds the lock of `lckpwdf`.
  pub held : Bool
  -- The effective user is root: `seteuid` is taken to succeed.
  pub privileged : Bool

-- `lckpwdf_ok`: `lckpwdf` succeeds, if it is called.
unfoldable pub pwdf_lock : Bool → Lock → Bool × Lock
pwdf_lock lckpwdf_ok l =
    if l.count == 0
    then (if not lckpwdf_ok
        then (false, record l { privileged = true })
        else (true, record l { count = suc l.count; held = true; privileged = true }))
    else (true, record l { count = suc l.count })

unfoldable pub pwdf_unlock : Bool → Lock → Bool × Lock
pwdf_unlock ulckpwdf_ok l =
    if ltb 0 l.count
    then (if l.count - 1 == 0
        then (if not ulckpwdf_ok
            then (false, record l { count = l.count - 1 })
            else (true, record l { count = l.count - 1; held = false; privileged = false }))
        else (true, record l { count = l.count - 1 }))
    else (false, l)
