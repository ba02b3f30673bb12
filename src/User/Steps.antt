-- ===== src/User/Steps.antt =====
-- src/daemon/core/gumd-daemon-user.c: the steps of the operations on a user: the files, the scripts, the
-- groups and the home directory that come and go with it.
pub mod Balance
use platform_upstream_gumd.Common.{
  ℕ, Bool, false, Option, none, some, List, [], ◌∷◌, Str, ◌==◌, if◌then◌else◌,
}
use platform_upstream_gumd.Error.{Error, Result, ok, err}
use platform_upstream_gumd.Database.{Group}
use platform_upstream_gumd.StringUtils.{Strv}
use platform_upstream_gumd.UserTypes.{usertype_system, usertype_admin, usertype_security}
use platform_upstream_gumd.File.{OpType, modify, getgrnam}
use platform_upstream_gumd.Home.{create_home_dir, delete_home_dir}
use platform_upstream_gumd.World.{
  Config, Os, World, Action, pure, gets, ◌>>=◌, set_self, on_object, update_passwd_file,
  update_shadow_file, ticked, ScriptDir,
}
use platform_upstream_gumd.Group.{
  GroupObject, grouptype_system, grouptype_user, new_object, set_gid_property,
  set_groupname_property, set_grouptype_property,
}
use platform_upstream_gumd.Group.Operations.{group_add, group_delete, group_add_member}
use platform_upstream_gumd.User.{UserObject, set_user_gid_property, set_shell_property}
use platform_upstream_gumd.User.Ids.{type_of}
use platform_upstream_gumd.User.Entries.{
  update_passwd_entry, update_shadow_entry, lock_shadow_entry,
}

module _ (glib : Strv) (os : Os) (c : Config) where
  -- `gum_file_update` with the three callbacks, on behalf of the object as it is then.
  unfoldable pub update_passwd : OpType → Option Str → Action UserObject (Unit {0})
  unfolding update_passwd_file
  update_passwd op old s = update_passwd_file os (update_passwd_entry s.self op old) s

  unfoldable pub update_shadow : OpType → Option Str → Action UserObject (Unit {0})
  unfolding update_shadow_file
  update_shadow op old s = update_shadow_file os (update_shadow_entry s.self op old) s

  unfoldable pub lock_user : Bool → Action UserObject (Unit {0})
  unfolding update_shadow_file
  lock_user lock s = update_shadow_file os (lock_shadow_entry s.self modify (some lock)) s

  -- `gum_utils_run_user_scripts`
  unfoldable pub run_user_scripts : ScriptDir → Option Str → Action UserObject (Unit {0})
  run_user_scripts dir ut s =
      let w = s.world in
      let pw = s.self.pw in
      let w' : World = elim pw.pw_name [
        | none ↦ w
        | some name ↦ elim pw.pw_dir [
          | none ↦ w
          | some home ↦ record w {
            user_scripts =
                record {
                  dir = dir;
                  username = name;
                  uid = pw.pw_uid;
                  gid = pw.pw_gid;
                  homedir = home;
                  usertype = ut;
                }
                ∷ w.user_scripts;
          }
        ]
      ] in
      (ok tt, record s { world = w' })

  -- The new group of a user, which `g_object_set` gives its name and its type.
  unfoldable pub group_for : Option Str → UserObject → GroupObject
  unfolding set_groupname_property set_grouptype_property
  group_for primary o =
      set_grouptype_property
        (if type_of glib o == usertype_system then grouptype_system else grouptype_user)
        (set_groupname_property (elim primary [ none ↦ o.pw.pw_name | some name ↦ some name ])
          new_object)

  -- The id of the group that is there, or of a new one.
  unfoldable pub group_or_new : Option Group → Action UserObject ℕ
  unfolding group_for
  group_or_new (some grp) s = (ok grp.gr_gid, s)
  group_or_new none s =
      on_object (group_for c.usr_primary_grpname s.self) (group_add os c s.self.pw.pw_uid) s

  -- The group of the configured name if there is one, or else a new one.
  unfoldable pub set_group : Action UserObject (Unit {0})
  unfolding group_or_new
  set_group = do
    grp ← gets (λ s. elim c.usr_primary_grpname [
      | none ↦ none
      | some name ↦ getgrnam (some name) s.world.group
    ])
    gid ← group_or_new grp
    set_self (set_user_gid_property gid)

  -- What `*error` is after a call that may set it: the first error stays.
  abbrev pub first_error : {A : Type 0} → Option Error → Result A → Option Error
  first_error (some e) r = some e
  first_error none (ok _) = none
  first_error none (err e) = some e

  -- A call whose failure is noted, the value of `*error`, and not returned.
  unfoldable pub noting :
      Option Error → Action UserObject (Unit {0}) → Action UserObject (Option Error)
  noting noted m s = let (r, t) = m s in (ok (first_error noted r), t)

  unfoldable pub add_to_group : Str → Action UserObject (Unit {0})
  add_to_group name s =
      on_object (set_groupname_property (some name) new_object)
        (group_add_member os c s.self.pw.pw_uid false) s

  -- The loop over the names.
  unfoldable pub add_to_groups : Option Error → List Str → Action UserObject (Option Error)
  unfolding add_to_group noting
  add_to_groups noted [] = pure noted
  add_to_groups noted (name ∷ names) =
      noting noted (add_to_group name) >>= λ noted'. add_to_groups noted' names

  abbrev names_in : Option Str → List Str
  names_in none = []
  names_in (some s) = glib.split b',' s

  -- Gives the value of `*error`. The only caller does not read the result.
  unfoldable pub set_default_groups : Action UserObject (Option Error)
  unfolding add_to_groups
  set_default_groups = do
    ut ← gets (λ s. type_of glib s.self)
    if ut == usertype_system
        then pure none
        else add_to_groups none
            (names_in (if ut == usertype_admin then c.def_admin_groups else c.def_usr_groups))

  unfoldable pub create_home : Action UserObject (Unit {0})
  unfolding create_home_dir
  create_home s =
      let w = s.world in
      let pw = s.self.pw in
      let (r, homes') =
        create_home_dir (os.home_io w.calls) pw.pw_uid pw.pw_gid w.skel pw.pw_dir w.homes in
      if type_of glib s.self == usertype_system
      then (ok tt, s)
      else (r, record s { world = ticked (record w { homes = homes' }) })

  unfoldable pub delete_home : Action UserObject (Unit {0})
  unfolding delete_home_dir
  delete_home s =
      let w = s.world in
      let (r, homes') = delete_home_dir (os.home_io w.calls) s.self.pw.pw_dir w.homes in
      if type_of glib s.self == usertype_system
      then (ok tt, s)
      else (r, record s { world = ticked (record w { homes = homes' }) })

  unfoldable pub delete_group_of : Action UserObject (Unit {0})
  delete_group_of s = on_object (set_gid_property s.self.pw.pw_gid new_object) (group_delete os c) s

  unfoldable pub default_shell : UserObject → UserObject
  unfolding set_shell_property
  default_shell o = elim o.pw.pw_shell [
    | some _ ↦ o
    | none ↦
        set_shell_property (if type_of glib o == usertype_security then c.sec_shell else c.shell) o
  ]
