-- ===== src/User/Operations.antt =====
-- src/daemon/core/gumd-daemon-user.c: the operations on a user object, with the groups and the home
-- directory that come and go with a user.
pub mod Balance
pub mod Still
pub mod Prepared
pub mod Add
pub mod Asked
pub mod Delete
pub mod Update
pub mod Icon
use platform_upstream_gumd.Common.{
  ℕ, Bool, true, false, not, ◌&&◌, ◌||◌, Option, none, some, List, [], ◌∷◌, Str, codes, strcmp0_eq,
  ◌==◌, if◌then◌else◌,
}
use platform_upstream_gumd.Error.{Error, Result, ok, err}
use platform_upstream_gumd.Database.{Passwd, Spwd}
use platform_upstream_gumd.StringUtils.{Strv}
use platform_upstream_gumd.Crypt.{cmp_secret_eq}
use platform_upstream_gumd.UserTypes.{
  usertype_none, usertype_system, usertype_admin, usertype_security, type_from_string,
}
use platform_upstream_gumd.File.{OpType, add, delete, modify, invalid_id, getgrnam, getspnam}
use platform_upstream_gumd.Home.{create_home_dir, delete_home_dir}
use platform_upstream_gumd.Session.{terminate_user}
use platform_upstream_gumd.World.{
  Config, Os, State, World, Action, pure, fail, gets, lift, ◌>>=◌, ◌>>◌, require, set_self, when,
  lock_db, unlock_db, or_unlock, on_object, ignoring, update_passwd_file, update_shadow_file,
  ticked, ScriptDir, useradd_dir, userdel_dir,
}
use platform_upstream_gumd.Group.{
  GroupObject, grouptype_system, grouptype_user, new_object, set_gid_property,
  set_groupname_property, set_grouptype_property,
}
use platform_upstream_gumd.Group.Operations.{group_add, group_delete, group_add_member}
use platform_upstream_gumd.Group.Membership.{delete_user_membership}
use platform_upstream_gumd.User.{
  UserObject, new_user, GecosField, realname, office, officephone, homephone, usertype,
  gecos_string, set_gecos_property, set_usertype_property, set_uid_property, set_user_gid_property,
  set_username_property, set_user_secret_property, set_homedir_property, set_shell_property,
}
use platform_upstream_gumd.User.Ids.{type_of, is_some, set_uid}
use platform_upstream_gumd.User.Entries.{
  copy_shadow_struct, update_passwd_entry, update_shadow_entry, lock_shadow_entry,
}
use platform_upstream_gumd.User.Fields.{
  set_user_secret, set_shadow_data, get_passwd, copy_passwd_data, found_or, get_userinfo,
  add_userinfo, update_userinfo, delete_userinfo,
}
use platform_upstream_gumd.User.Steps.{
  update_passwd, update_shadow, lock_user, run_user_scripts, group_for, set_group, first_error,
  noting, add_to_group, add_to_groups, set_default_groups, create_home, delete_home,
  delete_group_of, default_shell,
}

module _ (glib : Strv) (os : Os) (c : Config) where
  -- Gives the value of `*uid`, and of `*error` where TRUE is returned.
  unfoldable pub user_add : Action UserObject (ℕ × Option Error)
  unfolding default_shell
  user_add = do
    ut ← gets (λ s. type_of glib s.self)
    require (not (ut == usertype_none)) Error.user_invalid_user_type
    set_self (default_shell glib os c)
    lock_db os
    or_unlock os (set_uid glib os c)
    or_unlock os (set_group glib os c)
    or_unlock os (set_shadow_data glib os c)
    or_unlock os (update_passwd glib os c add none)
    or_unlock os (update_shadow glib os c add none)
    add_userinfo os c
    noted ← set_default_groups glib os c
    or_unlock os (create_home glib os c)
    uid ← gets (λ s. s.self.pw.pw_uid)
    type ← gets (λ s. gecos_string glib s.self.pw.pw_gecos usertype)
    run_user_scripts glib os c useradd_dir type
    unlock_db os
    pure (uid, noted)

  -- The user is unlocked again where `m` fails.
  unfoldable pub or_unlock_user : {A : Type 0} → Action UserObject A → Action UserObject A
  unfolding lock_user
  or_unlock_user m s =
      let (r, t) = m s in
      elim r [ ok a ↦ (ok a, t) | err e ↦ (err e, (lock_user glib os c false t).1) ]

  -- Whatever the error of `m` is, it is replaced by `e`.
  unfoldable pub failing_with : {A : Type 0} → Error → Action UserObject A → Action UserObject A
  failing_with e m s = let (r, t) = m s in elim r [ ok a ↦ (ok a, t) | err _ ↦ (err e, t) ]

  unfoldable pub end_sessions : Action UserObject (Unit {0})
  unfolding terminate_user
  end_sessions s =
      let w = s.world in
      (
        if terminate_user (os.login w.calls) s.self.pw.pw_uid
            then ok tt
            else err Error.user_session_term_failure,
        record s { world = ticked w },
      )

  -- A user that is the one of the process stays.
  unfoldable pub check_not_self : Action UserObject (Unit {0})
  check_not_self s = require (not (s.self.pw.pw_uid == os.geteuid)) Error.user_self_destruction s

  unfoldable pub delete_user_entries : Action UserObject (Unit {0})
  delete_user_entries = do update_passwd glib os c delete none; update_shadow glib os c delete none

  -- Gives the value of `*error` where TRUE is returned.
  unfoldable pub user_delete : Bool → Action UserObject (Option Error)
  unfolding delete_user_entries check_not_self
  user_delete rem_home_dir = do
    lock_db os
    uid ← gets (λ s. s.self.pw.pw_uid)
    or_unlock os (require (not (uid == invalid_id)) Error.user_not_found)
    or_unlock os (failing_with Error.user_not_found (copy_passwd_data glib c))
    or_unlock os check_not_self
    or_unlock os (failing_with Error.user_lock_failure (lock_user glib os c true))
    or_unlock os (or_unlock_user end_sessions)
    run_user_scripts glib os c userdel_dir none
    delete_userinfo os c
    or_unlock os (or_unlock_user delete_user_entries)
    or_unlock os (delete_group_of glib os c)
    name ← gets (λ s. s.self.pw.pw_name)
    noted ← or_unlock os (delete_user_membership os name)
    when rem_home_dir (or_unlock os (delete_home glib os c))
    unlock_db os
    pure noted

  -- A field that the object has no text for is taken from the entry.
  unfoldable pub update_gecos_field : Passwd → GecosField → UserObject → UserObject
  unfolding set_gecos_property
  update_gecos_field src field o =
      let own = gecos_string glib o.pw.pw_gecos field in
      let str = gecos_string glib src.pw_gecos field in
      if strcmp0_eq own none || strcmp0_eq own (some [])
      then set_gecos_property glib field str o
      else o

  -- The same for the field of the type.
  unfoldable pub update_usertype_field : Passwd → UserObject → UserObject
  unfolding set_usertype_property
  update_usertype_field src o =
      let own = gecos_string glib o.pw.pw_gecos usertype in
      let str = gecos_string glib src.pw_gecos usertype in
      if strcmp0_eq own none || strcmp0_eq own (some [])
      then set_usertype_property glib (type_from_string str) o
      else o

  -- The object takes the name, the ids and the home directory of the entries, and what it lacks.
  unfoldable pub fill_user : Passwd → Spwd → UserObject → UserObject
  unfolding copy_shadow_struct update_gecos_field update_usertype_field
  fill_user pw shadow o =
      let o1 = record o { shadow = copy_shadow_struct shadow o.shadow true } in
      let o2 = set_homedir_property pw.pw_dir (
        set_user_gid_property pw.pw_gid
          (set_uid_property pw.pw_uid (set_username_property pw.pw_name o1))) in
      let o3 = update_gecos_field pw homephone (
        update_gecos_field pw officephone
          (update_gecos_field pw office (update_gecos_field pw realname o2))) in
      update_usertype_field pw o3

  -- `s && g_strcmp0 (old, s) != 0`
  abbrev pub differs : Option Str → Option Str → Bool
  differs old none = false
  differs old (some s) = not (strcmp0_eq old (some s))

  -- Says whether there is a new icon, which has been written then.
  unfoldable pub change_icon : Action UserObject Bool
  change_icon = do
    icon ← gets (λ s. s.self.icon)
    old ← gets (λ s. get_userinfo glib c s.self s.world.userinfo)
    when (differs old icon) (update_userinfo os c icon)
    pure (differs old icon)

  -- Says whether there is a new secret, which has been encrypted then.
  unfoldable pub change_secret : Passwd → Action UserObject Bool
  change_secret pw = do
    secret ← gets (λ s. s.self.pw.pw_passwd)
    same ← gets (λ s. cmp_secret_eq os.crypt secret s.self.shadow.sp_pwdp)
    if differs (some (codes "x")) secret && not same
        then (do set_user_secret glib os c; pure true)
        else (do set_self (set_user_secret_property pw.pw_passwd); pure false)

  -- Says whether gecos is new, where its type is not.
  unfoldable pub change_gecos : Passwd → Action UserObject Bool
  change_gecos pw = do
    gecos ← gets (λ s. s.self.pw.pw_gecos)
    require
        (not (differs pw.pw_gecos gecos)
          || strcmp0_eq (gecos_string glib gecos usertype) (gecos_string glib pw.pw_gecos usertype))
        Error.user_invalid_user_type
    pure (differs pw.pw_gecos gecos)

  unfoldable pub user_update : Action UserObject (Unit {0})
  unfolding change_icon change_secret change_gecos fill_user
  user_update = do
    lock_db os
    uid ← gets (λ s. s.self.pw.pw_uid)
    or_unlock os (require (not (uid == invalid_id)) Error.user_not_found)
    pw ← or_unlock os (λ s. (get_passwd glib s.self s.world.passwd, s))
    shadow ←
        or_unlock os
          (λ s. (found_or glib (getspnam pw.pw_name s.world.shadow) Error.user_not_found, s))
    new_icon ← or_unlock os change_icon
    set_self (fill_user pw shadow)
    new_secret ← or_unlock os (change_secret pw)
    new_gecos ← or_unlock os (change_gecos pw)
    new_shell ← gets (λ s. differs pw.pw_shell s.self.pw.pw_shell)
    or_unlock os (require (new_icon || new_secret || new_gecos || new_shell) Error.user_no_changes)
    or_unlock os (update_passwd glib os c modify pw.pw_name)
    or_unlock os (update_shadow glib os c modify pw.pw_name)
    unlock_db os

  -- What `gumd_daemon_user_new_by_uid` and `…_by_name` give: the object, or NULL.
  unfoldable pub user_constructed : State UserObject → Option UserObject × State UserObject
  user_constructed s =
      let (copied, t) = copy_passwd_data glib c s in
      (elim copied [ err e ↦ none | ok _ ↦ some t.self ], (unlock_db os t).1)

  -- With the result of taking the lock.
  unfoldable pub construct_locked :
      UserObject → Result (Unit {0}) × State UserObject → Option UserObject × State UserObject
  unfolding user_constructed
  construct_locked o (err e, t) = (none, t)
  construct_locked o (ok _, t) = user_constructed (record t { self = o })

  unfoldable pub construct_user :
      UserObject → State UserObject → Option UserObject × State UserObject
  unfolding construct_locked
  construct_user o s = construct_locked o (lock_db os s)

  unfoldable pub user_new_by_uid : ℕ → State UserObject → Option UserObject × State UserObject
  unfolding construct_user
  user_new_by_uid uid s = construct_user (set_uid_property uid new_user) s

  unfoldable pub user_new_by_name :
      Option Str → State UserObject → Option UserObject × State UserObject
  unfolding construct_user
  user_new_by_name none s = (none, s)
  user_new_by_name (some name) s = construct_user (set_username_property (some name) new_user) s
