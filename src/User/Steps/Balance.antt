-- ===== src/User/Steps/Balance.antt =====
-- The steps of the operations on a user leave the counter of the lock alone.
use platform_upstream_gumd.Common.{
  ℕ, refl, ◌∙◌, Bool, false, Option, none, some, List, [], ◌∷◌, Str, ◌==◌, inl, inr, Bool-cases,
  arith,
}
use platform_upstream_gumd.UserTypes.{usertype_system}
use platform_upstream_gumd.Error.{Error, Result}
use platform_upstream_gumd.Database.{Group}
use platform_upstream_gumd.StringUtils.{Strv}
use platform_upstream_gumd.File.{OpType}
use platform_upstream_gumd.Group.Operations.Balance.{
  group_add-Steady, group_delete-Steady, group_add_member-Steady,
}
use platform_upstream_gumd.World.{Config, Os, State, Action, ScriptDir, on_object, pure}
use platform_upstream_gumd.World.Locking.{
  Steady, Guards, count, lock_rules, bind-Guards, gets-Guards, unlock_db-Closes, Ends, lock_db-Ends,
}
use platform_upstream_gumd.User.{UserObject}
use platform_upstream_gumd.User.Ids.{
  name_generated, name_from, set_daemon_user_name, take_uid, choose_uid, set_uid,
}
use platform_upstream_gumd.User.Fields.{
  store_user_secret, user_secret_from, set_user_secret, set_shadow_data, copy_found, take_entries,
  copy_passwd_data, add_userinfo, update_userinfo, delete_userinfo,
}
use platform_upstream_gumd.User.Steps.{
  update_passwd, update_shadow, lock_user, run_user_scripts, group_or_new, set_group, noting,
  add_to_group, add_to_groups, set_default_groups, create_home, delete_home, delete_group_of,
}

module _ (glib : Strv) (os : Os) (c : Config) where
  pub update_passwd-Steady :
      (op : OpType) (old : Option Str) → Steady (update_passwd glib os c op old)
  unfolding update_passwd
  update_passwd-Steady op old = record { steady = λ s. refl }

  pub update_shadow-Steady :
      (op : OpType) (old : Option Str) → Steady (update_shadow glib os c op old)
  unfolding update_shadow
  update_shadow-Steady op old = record { steady = λ s. refl }

  pub lock_user-Steady : (lock : Bool) → Steady (lock_user glib os c lock)
  unfolding lock_user
  lock_user-Steady lock = record { steady = λ s. refl }

  pub run_user_scripts-Guards :
      (d : ScriptDir) (ut : Option Str) → Guards (run_user_scripts glib os c d ut)
  unfolding run_user_scripts
  run_user_scripts-Guards d ut = record { guards = λ n s h. ground arith }

  pub name_generated-Steady : (name : Str) → Steady (name_generated glib os name)
  unfolding name_generated
  name_generated-Steady name = search lock_rules depth 20

  pub name_from-Steady : (name nick : Option Str) → Steady (name_from glib os name nick)
  unfolding name_from
  name_from-Steady none none = search lock_rules
  name_from-Steady (some name) nick = search lock_rules depth 20
  name_from-Steady none (some nick) = search (lock_rules, name_generated-Steady) depth 20

  pub set_daemon_user_name-Steady : Steady (set_daemon_user_name glib os)
  unfolding set_daemon_user_name
  set_daemon_user_name-Steady = record {
    steady = λ s. (name_from-Steady s.self.pw.pw_name s.self.nick_name).steady s;
  }

  pub take_uid-Steady : (free : Option ℕ) → Steady (take_uid glib os c free)
  unfolding take_uid
  take_uid-Steady none = search lock_rules
  take_uid-Steady (some uid) = search lock_rules depth 20

  pub set_uid-Steady : Steady (set_uid glib os c)
  unfolding set_uid choose_uid
  set_uid-Steady = search (lock_rules, set_daemon_user_name-Steady, take_uid-Steady) depth 40

  pub store_user_secret-Steady : (enc : Option Str) → Steady (store_user_secret glib enc)
  unfolding store_user_secret
  store_user_secret-Steady none = record { steady = λ s. refl }
  store_user_secret-Steady (some enc) = record { steady = λ s. refl }

  pub user_secret_from-Steady : (passwd : Option Str) → Steady (user_secret_from glib os c passwd)
  unfolding user_secret_from
  user_secret_from-Steady none = record { steady = λ s. refl }
  user_secret_from-Steady (some secret) = record {
    steady = λ s. (store_user_secret-Steady _).steady s;
  }

  pub set_user_secret-Steady : Steady (set_user_secret glib os c)
  unfolding set_user_secret
  set_user_secret-Steady = record {
    steady = λ s. (user_secret_from-Steady s.self.pw.pw_passwd).steady s;
  }

  pub set_shadow_data-Steady : Steady (set_shadow_data glib os c)
  unfolding set_shadow_data
  set_shadow_data-Steady = search (lock_rules, set_user_secret-Steady) depth 20

  pub reads-Steady : {A : Type 0} (f : State UserObject → Result A) → Steady (λ s. (f s, s))
  reads-Steady f = record { steady = λ s. refl }

  pub copy_passwd_data-Steady : Steady (copy_passwd_data glib c)
  unfolding copy_passwd_data copy_found take_entries
  copy_passwd_data-Steady = record { steady = λ s. ground arith }

  pub group_or_new-Steady : (grp : Option Group) → Steady (group_or_new glib os c grp)
  unfolding group_or_new on_object
  group_or_new-Steady none = record {
    steady = λ s. (group_add-Steady os c s.self.pw.pw_uid).steady _;
  }
  group_or_new-Steady (some grp) = search lock_rules

  pub set_group-Steady : Steady (set_group glib os c)
  unfolding set_group
  set_group-Steady = search (lock_rules, group_or_new-Steady) depth 20

  pub add_to_group-Steady : (name : Str) → Steady (add_to_group glib os c name)
  unfolding add_to_group on_object
  add_to_group-Steady name = record {
    steady = λ s. (group_add_member-Steady os c s.self.pw.pw_uid false).steady _;
  }

  pub noting-Guards :
      (noted : Option Error) (m : Action UserObject (Unit {0}))
      → Steady m
      → Guards (noting glib os c noted m)
  unfolding noting
  noting-Guards noted m p = record { guards = λ n s h. p.steady s ∙ h }

  pub pure-Guards : {A : Type 0} (a : A) → Guards {O = UserObject} (pure a)
  unfolding pure
  pure-Guards a = record { guards = λ n s h. h }

  pub add_to_groups-Guards :
      (noted : Option Error) (names : List Str) → Guards (add_to_groups glib os c noted names)
  unfolding add_to_groups
  add_to_groups-Guards noted [] = pure-Guards noted
  add_to_groups-Guards noted (name ∷ names) =
      bind-Guards _ _ (noting-Guards noted (add_to_group glib os c name) (add_to_group-Steady name))
        λ noted'. add_to_groups-Guards noted' names

  pub set_default_groups-Guards : Guards (set_default_groups glib os c)
  unfolding set_default_groups
  set_default_groups-Guards = bind-Guards _ _ (gets-Guards _) λ ut.
      elim (Bool-cases (ut == usertype_system)) [
        | inl e ↦ rw e (pure-Guards none)
        | inr e ↦ rw e (add_to_groups-Guards none _)
      ]

  pub create_home-Steady : Steady (create_home glib os c)
  unfolding create_home
  create_home-Steady = record { steady = λ s. ground arith }

  pub delete_home-Steady : Steady (delete_home glib os c)
  unfolding delete_home
  delete_home-Steady = record { steady = λ s. ground arith }

  pub delete_group_of-Steady : Steady (delete_group_of glib os c)
  unfolding delete_group_of on_object
  delete_group_of-Steady = record { steady = λ s. (group_delete-Steady os c).steady _ }

  pub add_userinfo-Guards : Guards (add_userinfo os c)
  unfolding add_userinfo
  add_userinfo-Guards = record { guards = λ n s h. ground arith }

  pub delete_userinfo-Guards : Guards (delete_userinfo os c)
  unfolding delete_userinfo
  delete_userinfo-Guards = record { guards = λ n s h. ground arith }

  pub update_userinfo-Steady : (icon : Option Str) → Steady (update_userinfo os c icon)
  unfolding update_userinfo
  update_userinfo-Steady none = record { steady = λ s. ground arith }
  update_userinfo-Steady (some icon) = record { steady = λ s. ground arith }

  pub ruleset user_steps = (
    lock_rules, update_passwd-Steady, update_shadow-Steady, lock_user-Steady,
    run_user_scripts-Guards, set_uid-Steady, set_group-Steady, set_shadow_data-Steady,
    copy_passwd_data-Steady, set_default_groups-Guards, create_home-Steady, delete_home-Steady,
    delete_group_of-Steady, add_userinfo-Guards, delete_userinfo-Guards, update_userinfo-Steady,
    set_user_secret-Steady, reads-Steady,
  )
