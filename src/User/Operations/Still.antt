-- ===== src/User/Operations/Still.antt =====
-- Which steps of the operations on a user leave the passwd file and the object alone.
use platform_upstream_gumd.Common.{
  ◌≡◌, refl, ap, ◌∙◌, inl, inr, Bool, true, false, Option, none, some, List, [], ◌∷◌, Str, ◌==◌,
  Bool-cases, arith,
}
use platform_upstream_gumd.Error.{Error, Result, ok, err}
use platform_upstream_gumd.StringUtils.{Strv}
use platform_upstream_gumd.UserTypes.{usertype_system}
use platform_upstream_gumd.File.{OpType}
use platform_upstream_gumd.World.{
  Config, Os, State, Action, resume, ◌>>=◌, pure, fail, lift, gets, lock_db, unlock_db, or_unlock,
  ScriptDir, on_object,
}
use platform_upstream_gumd.Group.{new_object, set_groupname_property, set_gid_property}
use platform_upstream_gumd.Group.Operations.Frame.{group_add_member-Keeps, group_delete-Keeps}
use platform_upstream_gumd.Group.Membership.{
  leave_group_file, leave_gshadow_file, leave_shadow, delete_user_membership,
}
use platform_upstream_gumd.User.{UserObject}
use platform_upstream_gumd.User.Fields.{add_userinfo, delete_userinfo}
use platform_upstream_gumd.User.Steps.{
  update_shadow, lock_user, run_user_scripts, noting, add_to_group, add_to_groups,
  set_default_groups, create_home, delete_home, delete_group_of,
}
use platform_upstream_gumd.User.Operations.{or_unlock_user, failing_with, end_sessions}

-- A step that leaves the passwd file and the object alone.
pub record Still {A : Type 0} (m : Action UserObject A) : Type 0 where
  pub still :
      (s : State UserObject) → ((m s).1.world.passwd ≡ s.world.passwd) × ((m s).1.self ≡ s.self)

resume-Still :
    {A B : Type 0} (f : A → Action UserObject B) (s : State UserObject)
    (x : Result A × State UserObject)
    → (x.1.world.passwd ≡ s.world.passwd) × (x.1.self ≡ s.self)
    → ((a : A) → Still (f a))
    → ((resume f x).1.world.passwd ≡ s.world.passwd) × ((resume f x).1.self ≡ s.self)
resume-Still f s (ok a, t) h q = (((q a).still t).0 ∙ h.0, ((q a).still t).1 ∙ h.1)
resume-Still f s (err e, t) h q = h

pub bind-Still :
    {A B : Type 0} (m : Action UserObject A) (f : A → Action UserObject B)
    → Still m
    → ((a : A) → Still (f a))
    → Still (m >>= f)
unfolding ◌>>=◌
bind-Still m f p q = record { still = λ s. resume-Still f s (m s) (p.still s) q }

module _ (glib : Strv) (os : Os) (c : Config) where
  pub update_shadow-Still :
      (op : OpType) (old : Option Str) → Still (update_shadow glib os c op old)
  unfolding update_shadow
  update_shadow-Still op old = record { still = λ s. (refl, refl) }

  pub add_userinfo-Still : Still (add_userinfo os c)
  unfolding add_userinfo
  add_userinfo-Still = record { still = λ s. ground arith }

  pub create_home-Still : Still (create_home glib os c)
  unfolding create_home
  create_home-Still = record { still = λ s. ground arith }

  add_to_group-Still :
      (noted : Option Error) (name : Str)
      → Still (noting glib os c noted (add_to_group glib os c name))
  unfolding noting add_to_group on_object
  add_to_group-Still noted name = record {
    still = λ s. (
      ap (λ a. a.0)
          ((group_add_member-Keeps os c s.self.pw.pw_uid false).keeps
            (record { self = set_groupname_property (some name) new_object; world = s.world })),
      refl,
    );
  }

  add_to_groups-Still :
      (noted : Option Error) (names : List Str) → Still (add_to_groups glib os c noted names)
  unfolding add_to_groups pure
  add_to_groups-Still noted [] = record { still = λ s. (refl, refl) }
  add_to_groups-Still noted (name ∷ names) =
      bind-Still _ _ (add_to_group-Still noted name) λ noted'. add_to_groups-Still noted' names

  pub set_default_groups-Still : Still (set_default_groups glib os c)
  unfolding set_default_groups gets pure
  set_default_groups-Still =
      bind-Still _ _ (record { still = λ s. (refl, refl) })
        λ ut. elim (Bool-cases (ut == usertype_system)) [
          | inl e ↦ rw e (record { still = λ s. (refl, refl) })
          | inr e ↦ rw e (add_to_groups-Still none _)
        ]

  pub run_user_scripts-Still :
      (d : ScriptDir) (ut : Option Str) → Still (run_user_scripts glib os c d ut)
  unfolding run_user_scripts
  run_user_scripts-Still d ut = record { still = λ s. ground arith }

  pub lock_user-Still : (lock : Bool) → Still (lock_user glib os c lock)
  unfolding lock_user
  lock_user-Still lock = record { still = λ s. (refl, refl) }

  pub delete_userinfo-Still : Still (delete_userinfo os c)
  unfolding delete_userinfo
  delete_userinfo-Still = record { still = λ s. ground arith }

  pub delete_home-Still : Still (delete_home glib os c)
  unfolding delete_home
  delete_home-Still = record { still = λ s. ground arith }

  pub delete_group_of-Still : Still (delete_group_of glib os c)
  unfolding delete_group_of on_object
  delete_group_of-Still = record {
    still = λ s. (
      ap (λ a. a.0)
          ((group_delete-Keeps os c).keeps
            (record { self = set_gid_property s.self.pw.pw_gid new_object; world = s.world })),
      refl,
    );
  }

  pub end_sessions-Still : Still (end_sessions glib os c)
  unfolding end_sessions
  end_sessions-Still = record { still = λ s. (refl, refl) }

  pub failing_with-Still :
      {A : Type 0} (e : Error) (m : Action UserObject A)
      → Still m
      → Still (failing_with glib os c e m)
  unfolding failing_with
  failing_with-Still e m p = record { still = λ s. ground (arith, p.still s) }

  pub or_unlock_user-Still :
      {A : Type 0} (m : Action UserObject A) → Still m → Still (or_unlock_user glib os c m)
  unfolding or_unlock_user
  or_unlock_user-Still m p = record {
    still = λ s. ground (arith, p.still s, (lock_user-Still false).still (m s).1);
  }

module _ {A : Type 0} where
  pure-Still : (a : A) → Still (pure a)
  unfolding pure
  pure-Still a = record { still = λ s. (refl, refl) }

  lift-Still : (r : Result A) → Still (lift r)
  unfolding lift
  lift-Still r = record { still = λ s. (refl, refl) }

  fail-Still : (e : Error) → Still {A = A} (fail e)
  unfolding fail
  fail-Still e = record { still = λ s. (refl, refl) }

  gets-Still : (f : State UserObject → A) → Still (gets f)
  unfolding gets
  gets-Still f = record { still = λ s. (refl, refl) }

module _ (os : Os) where
  lock_db-Still : Still (lock_db os)
  unfolding lock_db
  lock_db-Still = record { still = λ s. (refl, refl) }

  unlock_db-Still : Still (unlock_db os)
  unfolding unlock_db
  unlock_db-Still = record { still = λ s. (refl, refl) }

  or_unlock-Still : {A : Type 0} (m : Action UserObject A) → Still m → Still (or_unlock os m)
  unfolding or_unlock unlock_db
  or_unlock-Still m p = record { still = λ s. ground (arith, p.still s) }

  leave_group_file-Still : (user : Str) → Still (leave_group_file os user)
  unfolding leave_group_file
  leave_group_file-Still user = record { still = λ s. (refl, refl) }

  leave_gshadow_file-Still : (user : Str) → Still (leave_gshadow_file os user)
  unfolding leave_gshadow_file
  leave_gshadow_file-Still user = record { still = λ s. (refl, refl) }

  ruleset still_rules = (
    pure-Still, lift-Still, fail-Still, gets-Still, lock_db-Still, unlock_db-Still, or_unlock-Still,
    leave_group_file-Still, leave_gshadow_file-Still, bind-Still,
  )

  leave_shadow-Still :
      (user : Str) (retval : Result (Unit {0})) (there : Bool)
      → Still (leave_shadow os user retval there)
  unfolding leave_shadow
  leave_shadow-Still user retval false = search still_rules depth 20
  leave_shadow-Still user retval true = search still_rules depth 20

  pub delete_user_membership-Still : (user : Option Str) → Still (delete_user_membership os user)
  unfolding delete_user_membership
  delete_user_membership-Still none = search still_rules
  delete_user_membership-Still (some user) = search (still_rules, leave_shadow-Still) depth 30
