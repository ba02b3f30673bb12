-- ===== src/Lock/Counting.antt =====
-- The counter of the lock against the lock of the system.
use platform_upstream_gumd.Common.{◌+◌, ◌≡◌, ◌≢◌, ◌⊎◌, Bool, true, false, arith}
use platform_upstream_gumd.Lock.{Lock, pwdf_lock, pwdf_unlock}

-- While it is counted, the lock is held, and with root's privileges.
abbrev pub IsValid : Lock → Type 0
IsValid l = (l.count ≡ 0) ⊎ (l.held ≡ true) × (l.privileged ≡ true)

-- What locking has done: it counts one more, of a lock that is held; or it could not take an
-- uncounted lock.
abbrev pub Locked : Bool → Lock → Bool × Lock → Type 0
Locked lckpwdf_ok l (true, l') = (l'.count ≡ l.count + 1) × IsValid l'
Locked lckpwdf_ok l (false, l') =
    (l.count ≡ 0) × (lckpwdf_ok ≡ false) × (l'.count ≡ 0) × (l'.held ≡ l.held)

-- What unlocking has done: it counts one less, and a lock that is not counted any more is given
-- back; or there was none to give back, or the system has kept the last one.
abbrev pub Unlocked : Bool → Lock → Bool × Lock → Type 0
Unlocked ulckpwdf_ok l (true, l') =
    (l.count ≡ l'.count + 1)
    × IsValid l'
    × ((l'.count ≡ 0) × (l'.held ≡ false) × (l'.privileged ≡ false)
        ⊎ (l'.count ≢ 0) × (l'.held ≡ l.held) × (l'.privileged ≡ l.privileged))
Unlocked ulckpwdf_ok l (false, l') =
    (l'.count ≡ 0) × (l'.held ≡ l.held) × ((l.count ≡ 0) ⊎ (l.count ≡ 1) × (ulckpwdf_ok ≡ false))

-- Locking and unlocking a lock that is held while it is counted: each result of either of them says
-- what has become of the counter, of the lock of the system and of the privileges: where unlocking
-- succeeds, both are given up exactly when nothing is counted any more; and the lock stays held
-- while it is counted.
pub lock-unlock :
    (lckpwdf_ok ulckpwdf_ok : Bool) (l : Lock)
    → IsValid l
    → Locked lckpwdf_ok l (pwdf_lock lckpwdf_ok l)
      × Unlocked ulckpwdf_ok l (pwdf_unlock ulckpwdf_ok l)
unfolding pwdf_lock pwdf_unlock
lock-unlock a b l v = (ground arith, ground arith)
