-- ===== src/Group/Operations/Frame.antt =====
-- The operations on groups leave the passwd and shadow files alone.
use platform_upstream_gumd.Common.{ℕ, refl, Bool, true, false, Option, none, some, Str, arith}
use platform_upstream_gumd.Error.{Result}
use platform_upstream_gumd.Database.{Group, Sgrp, Passwd}
use platform_upstream_gumd.File.{OpType}
use platform_upstream_gumd.World.{Config, Os, ScriptDir, combinators}
use platform_upstream_gumd.World.Frame.{Keeps, frame_rules}
use platform_upstream_gumd.Group.Ids.{set_gid}
use platform_upstream_gumd.Group.Fields.{
  store_encrypted, encrypt_or_default, set_secret, set_gshadow_data, check_group_type,
  copy_group_data,
}
use platform_upstream_gumd.Group.Operations.{
  delete_unless_primary, update_group, update_gshadow, run_group_scripts, group_add, delete_entries,
  group_delete, group_add_member,
}
use platform_upstream_gumd.Group.Membership.{
  leave_group_file, leave_gshadow_file, leave_shadow, delete_user_membership,
}

module _ (os : Os) (c : Config) where
  update_group-Keeps : (op : OpType) (old : Option Str) → Keeps (update_group os c op old)
  unfolding update_group
  update_group-Keeps op old = record { keeps = λ s. refl }

  update_gshadow-Keeps : (op : OpType) (old : Option Str) → Keeps (update_gshadow os c op old)
  unfolding update_gshadow
  update_gshadow-Keeps op old = record { keeps = λ s. refl }

  run_group_scripts-Keeps : (d : ScriptDir) → Keeps (run_group_scripts os c d)
  unfolding run_group_scripts
  run_group_scripts-Keeps d = record { keeps = λ s. refl }

  set_gid-Keeps : (preferred : ℕ) → Keeps (set_gid c preferred)
  unfolding set_gid combinators
  set_gid-Keeps preferred = record { keeps = λ s. ground arith }

  encrypt_or_default-Keeps : (passwd : Option Str) → Keeps (encrypt_or_default os c passwd)
  unfolding encrypt_or_default store_encrypted
  encrypt_or_default-Keeps none = record { keeps = λ s. refl }
  encrypt_or_default-Keeps (some secret) = record { keeps = λ s. ground arith }

  set_secret-Keeps : Keeps (set_secret os c)
  unfolding set_secret
  set_secret-Keeps = record {
    keeps = λ s. (encrypt_or_default-Keeps s.self.group.gr_passwd).keeps s;
  }

  set_gshadow_data-Keeps : Keeps (set_gshadow_data os c)
  unfolding set_gshadow_data
  set_gshadow_data-Keeps = search (frame_rules, set_secret-Keeps)

  check_group_type-Keeps : Keeps check_group_type
  unfolding check_group_type combinators
  check_group_type-Keeps = record { keeps = λ s. refl }

  copy_group_data-Keeps : (g : Option Group) (sg : Option Sgrp) → Keeps (copy_group_data g sg)
  unfolding copy_group_data combinators
  copy_group_data-Keeps g sg = record { keeps = λ s. ground arith }

  ruleset group_frame = (
    frame_rules, update_group-Keeps, update_gshadow-Keeps, run_group_scripts-Keeps, set_gid-Keeps,
    set_secret-Keeps, set_gshadow_data-Keeps, check_group_type-Keeps, copy_group_data-Keeps,
  )

  pub group_add-Keeps : (preferred : ℕ) → Keeps (group_add os c preferred)
  unfolding group_add
  group_add-Keeps preferred = search group_frame depth 40

  delete_unless_primary-Keeps : (user : Option Passwd) → Keeps (delete_unless_primary os c user)
  unfolding delete_unless_primary delete_entries
  delete_unless_primary-Keeps none = search group_frame depth 40
  delete_unless_primary-Keeps (some _) = search group_frame

  pub group_delete-Keeps : Keeps (group_delete os c)
  unfolding group_delete
  group_delete-Keeps = search (group_frame, delete_unless_primary-Keeps) depth 40

  pub group_add_member-Keeps : (uid : ℕ) (admin : Bool) → Keeps (group_add_member os c uid admin)
  unfolding group_add_member
  group_add_member-Keeps uid admin = search group_frame depth 40

module _ (os : Os) {O : Type 0} where
  leave_group_file-Keeps : (user : Str) → Keeps {O = O} (leave_group_file os user)
  unfolding leave_group_file
  leave_group_file-Keeps user = record { keeps = λ s. refl }

  leave_gshadow_file-Keeps : (user : Str) → Keeps {O = O} (leave_gshadow_file os user)
  unfolding leave_gshadow_file
  leave_gshadow_file-Keeps user = record { keeps = λ s. refl }

  leave_shadow-Keeps :
      (user : Str) (retval : Result (Unit {0})) (there : Bool)
      → Keeps {O = O} (leave_shadow os user retval there)
  unfolding leave_shadow
  leave_shadow-Keeps user retval false = search frame_rules depth 20
  leave_shadow-Keeps user retval true = search (frame_rules, leave_gshadow_file-Keeps) depth 20

  pub delete_user_membership-Keeps :
      (user : Option Str) → Keeps {O = O} (delete_user_membership os user)
  unfolding delete_user_membership
  delete_user_membership-Keeps none = search frame_rules
  delete_user_membership-Keeps (some user) =
      search (frame_rules, leave_group_file-Keeps, leave_shadow-Keeps) depth 30
