-- ===== src/File/Entries.antt =====
-- The loop that the callbacks of `gum_file_update` share: `_update_daemon_group_entry` and
-- `_update_gshadow_entry` of src/daemon/core/gumd-daemon-group.c, `_update_passwd_entry` and
-- `_update_shadow_entry` of src/daemon/core/gumd-daemon-user.c. They differ in the tests on an entry,
-- which the record `Rules` holds.
use platform_upstream_gumd.Common.{ℕ, suc, Bool, true, false, List, [], ◌∷◌, if◌then◌else◌}
use platform_upstream_gumd.Error.{Error, Result, ok, err, map_ok, file_write}
use platform_upstream_gumd.File.{OpType, add, delete, modify}

pub record Rules (A : Type 0) : Type 0 where
  -- What is read where an entry has been put.
  pub stored : A → A
  -- The entry of the object that is added, deleted or modified.
  pub own : A
  -- ADD: the entry is a duplicate; the own entry goes before it.
  pub clashes : A → Bool
  pub clash_error : Error
  pub goes_before : A → Bool
  -- DELETE and MODIFY: the entry is the one that is meant.
  pub deletes : A → Bool
  pub replaces : A → Bool

module _ {A : Type 0} (r : Rules A) (put_ok : ℕ → A → Bool) where
  open r use {stored, own, clashes, clash_error, goes_before, deletes, replaces}

  -- `if (put…ent (entry, dup_file) < 0)` return with an error; then go on.
  abbrev pub put : ℕ → A → Result (List A) → Result (List A)
  put n e rest = if put_ok n e then map_ok (λ written. stored e ∷ written) rest else err file_write

  -- `done` as at the head of the loop, and the number of writes so far.
  unfoldable pub update_loop : OpType → Bool → ℕ → List A → Result (List A)
  update_loop op true n [] = ok []
  update_loop add false n [] = put n own (ok [])
  update_loop delete false n [] = err file_write
  update_loop modify false n [] = err file_write
  update_loop op true n (e ∷ es) = put n e (update_loop op true (suc n) es)
  update_loop add false n (e ∷ es) =
      let placed = put n own (put (suc n) e (update_loop add true (suc (suc n)) es)) in
      let later = put n e (update_loop add false (suc n) es) in
      if clashes e then err clash_error else if goes_before e then placed else later
  update_loop delete false n (e ∷ es) =
      let removed = update_loop delete true n es in
      let later = put n e (update_loop delete false (suc n) es) in
      if deletes e then removed else later
  update_loop modify false n (e ∷ es) =
      let replaced = put n own (update_loop modify true (suc n) es) in
      let later = put n e (update_loop modify false (suc n) es) in
      if replaces e then replaced else later
