-- ===== src/Group/Membership/Balance.antt =====
-- Taking a user out of all groups leaves the counter of the lock as it found it.
use platform_upstream_gumd.Common.{refl, Bool, true, false, Option, none, some, Str}
use platform_upstream_gumd.Error.{Result}
use platform_upstream_gumd.World.{Os}
use platform_upstream_gumd.World.Locking.{Steady, Closes, lock_rules}
use platform_upstream_gumd.Group.Membership.{
  leave_group_file, leave_gshadow_file, leave_shadow, delete_user_membership,
}

module _ (os : Os) {O : Type 0} where
  leave_group_file-Steady : (user : Str) → Steady {O = O} (leave_group_file os user)
  unfolding leave_group_file
  leave_group_file-Steady user = record { steady = λ s. refl }

  leave_gshadow_file-Steady : (user : Str) → Steady {O = O} (leave_gshadow_file os user)
  unfolding leave_gshadow_file
  leave_gshadow_file-Steady user = record { steady = λ s. refl }

  leave_shadow-Closes :
      (user : Str) (retval : Result (Unit {0})) (there : Bool)
      → Closes {O = O} (leave_shadow os user retval there)
  unfolding leave_shadow
  leave_shadow-Closes user retval false = search lock_rules depth 20
  leave_shadow-Closes user retval true = search (lock_rules, leave_gshadow_file-Steady) depth 20

  pub delete_user_membership-Steady :
      (user : Option Str) → Steady {O = O} (delete_user_membership os user)
  unfolding delete_user_membership
  delete_user_membership-Steady none = search lock_rules
  delete_user_membership-Steady (some user) =
      search (lock_rules, leave_group_file-Steady, leave_shadow-Closes) depth 30
