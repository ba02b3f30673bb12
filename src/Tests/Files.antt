-- ===== src/Tests/Files.antt =====
-- The lock and the updates of the database files at a concrete group file.
use platform_upstream_gumd.Common.{
  ℕ, ◌≡◌, ◌⊎◌, inr, refl, Bool, true, false, none, some, List, [], ◌∷◌, Str, codes,
}
use platform_upstream_gumd.Error.{ok, err, file_write}
use platform_upstream_gumd.Database.{Group}
use platform_upstream_gumd.Lock.{Lock, pwdf_lock, pwdf_unlock}
use platform_upstream_gumd.Lock.Counting.{Locked, Unlocked, lock-unlock}
use platform_upstream_gumd.File.{DbFiles, Io, add, update}
use platform_upstream_gumd.File.Update.{Outcome, update-Outcome}
use platform_upstream_gumd.File.Entries.{Rules, update_loop}
use platform_upstream_gumd.File.Placement.{
  Settled, insert_before, any, clash_before, WriteFails, loop-insert_before,
}
use platform_upstream_gumd.Group.{GroupObject, new_object}
use platform_upstream_gumd.Group.Entries.{group_rules, update_daemon_group_entry}

abbrev pub io : {A : Type 0} → Io A
io = record {
  dup_opens = true;
  labelled = true;
  attributes_copied = true;
  put_ok = λ _ _. true;
  flushed = true;
  linked = true;
  renamed = true;
}

abbrev pub group : Str → ℕ → List Str → Group
group name gid mem = record {
  gr_name = some name;
  gr_passwd = some (codes "x");
  gr_gid = gid;
  gr_mem = some mem;
}

abbrev pub root : Group
root = group (codes "root") 0 []

abbrev pub users : Group
users = group (codes "users") 100 (codes "alice" ∷ [])

abbrev pub group_file : DbFiles Group
group_file = record { source = some (root ∷ users ∷ []); old = none; dup = none }

-- An object that stands for a group `staff` with the id 50.
abbrev staff : GroupObject
staff = record new_object { group = group (codes "staff") 50 [] }

abbrev on_users : GroupObject
on_users = record new_object { group = group (codes "users") 100 [] }

lock-unlock_example :
    let l : Lock = record { count = 1; held = true; privileged = true } in
    Locked false l (pwdf_lock false l) × Unlocked false l (pwdf_unlock false l)
lock-unlock_example =
    lock-unlock false false (record { count = 1; held = true; privileged = true })
      (inr (refl, refl))

update-Outcome_example :
    let cb = update_daemon_group_entry staff add none in
    Outcome io cb group_file (update io (some cb) group_file)
update-Outcome_example = update-Outcome io (update_daemon_group_entry staff add none) group_file

abbrev three : List Group
three = root ∷ group (codes "staff") 50 [] ∷ users ∷ []

staff_written :
    update_daemon_group_entry staff add none (λ _ _. true) (root ∷ users ∷ []) ≡ ok three
unfolding update_daemon_group_entry group_rules update_loop
staff_written = refl

abbrev staff_rules : Rules Group
staff_rules = group_rules staff none

abbrev users_rules : Rules Group
users_rules = group_rules on_users none

abbrev writes : ℕ → Group → Bool
writes _ _ = true

abbrev file : List Group
file = root ∷ users ∷ []

settled : (o : GroupObject) → Settled (group_rules o none).stored (root ∷ users ∷ [])
unfolding group_rules
settled o = (refl, (refl, tt))

loop-insert_before_example :
    let r = staff_rules in
    (update_loop r writes add false 0 file ≡ ok (insert_before r.goes_before (r.stored r.own) file))
      × (clash_before r.clashes r.goes_before file ≡ false)
    ⊎ (update_loop r writes add false 0 file ≡ err file_write) × WriteFails writes
    ⊎ (update_loop r writes add false 0 file ≡ err r.clash_error)
      × (clash_before r.clashes r.goes_before file ≡ true)
loop-insert_before_example = loop-insert_before staff_rules writes 0 file (settled staff)

no_clash : any (group_rules staff none).clashes (root ∷ users ∷ []) ≡ false
unfolding any group_rules
no_clash = refl
