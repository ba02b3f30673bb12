-- ===== src/Group/Operations/Balance.antt =====
-- Every operation on a group leaves the counter of the lock as it found it.
use platform_upstream_gumd.Common.{ℕ, ◌≡◌, refl, Bool, Option, none, some, Str, arith}
use platform_upstream_gumd.Error.{Error}
use platform_upstream_gumd.Database.{Group, Sgrp, Passwd}
use platform_upstream_gumd.File.{OpType}
use platform_upstream_gumd.World.{Config, Os, State, ScriptDir, combinators}
use platform_upstream_gumd.World.Locking.{Steady, Guards, Closes, count, lock_rules}
use platform_upstream_gumd.Group.{GroupObject}
use platform_upstream_gumd.Group.Ids.{set_gid}
use platform_upstream_gumd.Group.Fields.{
  store_encrypted, encrypt_or_default, set_secret, set_gshadow_data, check_group_type, get_group,
  copy_group_data,
}
use platform_upstream_gumd.Group.Operations.{
  found_or, delete_unless_primary, update_group, update_gshadow, run_group_scripts, group_add,
  delete_entries, group_delete, group_update, group_add_member, group_delete_member,
}

module _ (os : Os) (c : Config) where
  update_group-Steady : (op : OpType) (old : Option Str) → Steady (update_group os c op old)
  unfolding update_group
  update_group-Steady op old = record { steady = λ s. refl }

  update_gshadow-Steady : (op : OpType) (old : Option Str) → Steady (update_gshadow os c op old)
  unfolding update_gshadow
  update_gshadow-Steady op old = record { steady = λ s. refl }

  run_group_scripts-Guards : (d : ScriptDir) → Guards (run_group_scripts os c d)
  unfolding run_group_scripts
  run_group_scripts-Guards d = record { guards = λ n s h. h }

  set_gid-Steady : (preferred : ℕ) → Steady (set_gid c preferred)
  unfolding set_gid combinators
  set_gid-Steady preferred = record { steady = λ s. ground arith }

  store_encrypted-count :
      (enc : Option Str) (s : State GroupObject) → count (store_encrypted enc s).1 ≡ count s
  unfolding store_encrypted
  store_encrypted-count none s = refl
  store_encrypted-count (some enc) s = refl

  encrypt_or_default-count :
      (passwd : Option Str) (s : State GroupObject)
      → count (encrypt_or_default os c passwd s).1 ≡ count s
  unfolding encrypt_or_default
  encrypt_or_default-count none s = refl
  encrypt_or_default-count (some secret) s = store_encrypted-count _ s

  set_secret-Steady : Steady (set_secret os c)
  unfolding set_secret
  set_secret-Steady = record { steady = λ s. encrypt_or_default-count s.self.group.gr_passwd s }

  set_gshadow_data-Steady : Steady (set_gshadow_data os c)
  unfolding set_gshadow_data
  set_gshadow_data-Steady = search (lock_rules, set_secret-Steady)

  check_group_type-Steady : Steady check_group_type
  unfolding check_group_type combinators
  check_group_type-Steady = record { steady = λ s. refl }

  copy_group_data-Steady : (g : Option Group) (sg : Option Sgrp) → Steady (copy_group_data g sg)
  unfolding copy_group_data combinators
  copy_group_data-Steady g sg = record { steady = λ s. ground arith }

  get_group-Steady : Steady (λ (s : State GroupObject). (get_group s.self s.world.group, s))
  get_group-Steady = record { steady = λ s. refl }

  ruleset group_steps = (
    lock_rules, update_group-Steady, update_gshadow-Steady, run_group_scripts-Guards,
    set_gid-Steady, set_secret-Steady, set_gshadow_data-Steady, check_group_type-Steady,
    copy_group_data-Steady, get_group-Steady,
  )

  pub group_add-Steady : (preferred : ℕ) → Steady (group_add os c preferred)
  unfolding group_add
  group_add-Steady preferred = search group_steps depth 40

  delete_entries-Closes : Closes (delete_entries os c)
  unfolding delete_entries
  delete_entries-Closes = search group_steps depth 40

  delete_unless_primary-Closes : (user : Option Passwd) → Closes (delete_unless_primary os c user)
  unfolding delete_unless_primary
  delete_unless_primary-Closes none = delete_entries-Closes
  delete_unless_primary-Closes (some _) = search group_steps

  pub group_delete-Steady : Steady (group_delete os c)
  unfolding group_delete
  group_delete-Steady = search (group_steps, delete_unless_primary-Closes) depth 40

  group_update-Steady : Steady (group_update os c)
  unfolding group_update
  group_update-Steady = search group_steps depth 40

  found_or-Steady :
      {A : Type 0} (f : State GroupObject → Option A) (e : Error)
      → Steady (λ s. (found_or os c (f s) e, s))
  found_or-Steady f e = record { steady = λ s. refl }

  pub group_add_member-Steady : (uid : ℕ) (admin : Bool) → Steady (group_add_member os c uid admin)
  unfolding group_add_member
  group_add_member-Steady uid admin = search (group_steps, found_or-Steady) depth 40

  group_delete_member-Steady : (uid : ℕ) → Steady (group_delete_member os c uid)
  unfolding group_delete_member
  group_delete_member-Steady uid = search (group_steps, found_or-Steady) depth 40

-- The operations of a group object and their arguments.
pub data Operation : Type 0 where
  adds : ℕ → Operation
  deletes updates : Operation
  adds_member : ℕ → Bool → Operation
  deletes_member : ℕ → Operation

pub perform : Os → Config → Operation → State GroupObject → State GroupObject
perform os c (adds preferred) s = (group_add os c preferred s).1
perform os c deletes s = (group_delete os c s).1
perform os c updates s = (group_update os c s).1
perform os c (adds_member uid admin) s = (group_add_member os c uid admin s).1
perform os c (deletes_member uid) s = (group_delete_member os c uid s).1

-- Each operation gives back the locks that it takes, on every path and however the calls of the
-- system turn out: the counter is as it was before.
pub perform-count :
    (os : Os) (c : Config) (op : Operation) (s : State GroupObject)
    → count (perform os c op s) ≡ count s
unfolding perform
perform-count os c (adds preferred) s = (group_add-Steady os c preferred).steady s
perform-count os c deletes s = (group_delete-Steady os c).steady s
perform-count os c updates s = (group_update-Steady os c).steady s
perform-count os c (adds_member uid admin) s = (group_add_member-Steady os c uid admin).steady s
perform-count os c (deletes_member uid) s = (group_delete_member-Steady os c uid).steady s
