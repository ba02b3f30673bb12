-- ===== src/User/Operations/Icon.antt =====
-- The icon of a user that is looked up.
use platform_upstream_gumd.Common.{◌≡◌, refl, ◌∙◌, Option, none, some, Str, arith}
use platform_upstream_gumd.Error.{Result, ok, err}
use platform_upstream_gumd.Database.{Passwd, Spwd}
use platform_upstream_gumd.Validate.{validate_db_string_entry}
use platform_upstream_gumd.StringUtils.{Strv}
use platform_upstream_gumd.File.{invalid_id, getspnam}
use platform_upstream_gumd.World.{Config, Os, State, lock_db}
use platform_upstream_gumd.User.{
  UserObject, GecosField, realname, office, officephone, homephone, set_username_property,
  set_user_secret_property, set_uid_property, set_user_gid_property, set_homedir_property,
  set_shell_property, set_icon_property, set_gecos_property, set_usertype_property, with_gecos,
  new_user,
}
use platform_upstream_gumd.User.Fields.{
  get_userinfo, copy_names, copy_field, copy_fields, copy_type, copy_paths, copy_passwd_struct,
  copy_user_entries, get_passwd, take_entries, copy_found, copy_passwd_data,
}
use platform_upstream_gumd.User.Operations.{
  user_constructed, construct_locked, construct_user, user_new_by_name,
}

-- The icon of the object, if one is given.
abbrev pub icon_of : Option UserObject → Option Str
icon_of none = none
icon_of (some o) = o.icon

module _ (glib : Strv) (pw : Passwd) where
  copy_names-icon : (o : UserObject) → (copy_names glib pw o).icon ≡ o.icon
  unfolding copy_names set_user_gid_property set_uid_property set_user_secret_property
      set_username_property
  copy_names-icon o = ground arith

  copy_field-icon :
      (field : GecosField) (o : UserObject) → (copy_field glib pw field o).icon ≡ o.icon
  unfolding copy_field set_gecos_property with_gecos
  copy_field-icon field o = ground arith

  copy_fields-icon : (o : UserObject) → (copy_fields glib pw o).icon ≡ o.icon
  unfolding copy_fields
  copy_fields-icon o =
      let o1 = copy_field glib pw realname o in
      let o2 = copy_field glib pw office o1 in
      let o3 = copy_field glib pw officephone o2 in
      copy_field-icon homephone o3
      ∙ copy_field-icon officephone o2
      ∙ copy_field-icon office o1
      ∙ copy_field-icon realname o

  copy_type-icon : (o : UserObject) → (copy_type glib pw o).icon ≡ o.icon
  unfolding copy_type set_usertype_property with_gecos
  copy_type-icon o = ground arith

  copy_paths-icon : (o : UserObject) → (copy_paths glib pw o).icon ≡ o.icon
  unfolding copy_paths set_shell_property set_homedir_property
  copy_paths-icon o = ground arith

  copy_passwd_struct-icon : (o : UserObject) → (copy_passwd_struct glib pw o).icon ≡ o.icon
  unfolding copy_passwd_struct
  copy_passwd_struct-icon o =
      let o1 = copy_names glib pw o in
      let o2 = copy_fields glib pw o1 in
      copy_paths-icon (copy_type glib pw o2)
      ∙ copy_type-icon o2
      ∙ copy_fields-icon o1
      ∙ copy_names-icon o

  -- An icon that is NULL is not taken over.
  copy_user_entries-icon :
      (sp : Spwd) (o : UserObject) → (copy_user_entries glib pw sp none o).icon ≡ o.icon
  unfolding copy_user_entries set_icon_property validate_db_string_entry
  copy_user_entries-icon sp o = ground (arith, copy_passwd_struct-icon o)

module _ (glib : Strv) (os : Os) (c : Config) where
  -- `_get_userinfo` asks for the file of the uid that the object has so far.
  no_info :
      (o : UserObject) (s : State UserObject)
      → s.world.userinfo o.pw.pw_uid ≡ none
      → get_userinfo glib c o s.world.userinfo ≡ none
  unfolding get_userinfo
  no_info o s h = ground arith

  take_entries-icon :
      (pent : Passwd) (spent : Option Spwd) (s : State UserObject)
      → s.world.userinfo s.self.pw.pw_uid ≡ none
      → (take_entries glib c pent spent s).1.self.icon ≡ s.self.icon
  unfolding take_entries
  take_entries-icon pent none s h = refl
  take_entries-icon pent (some spent) s h =
      rw (no_info s.self s h) (copy_user_entries-icon glib pent spent s.self)

  copy_found-icon :
      (found : Result Passwd) (s : State UserObject)
      → s.world.userinfo s.self.pw.pw_uid ≡ none
      → (copy_found glib c found s).1.self.icon ≡ s.self.icon
  unfolding copy_found
  copy_found-icon (err e) s h = refl
  copy_found-icon (ok pent) s h = take_entries-icon pent (getspnam pent.pw_name s.world.shadow) s h

  user_constructed-icon :
      (s : State UserObject)
      → s.world.userinfo s.self.pw.pw_uid ≡ none
      → s.self.icon ≡ none
      → icon_of (user_constructed glib os c s).0 ≡ none
  unfolding user_constructed copy_passwd_data
  user_constructed-icon s h e =
      ground (arith, copy_found-icon (get_passwd glib s.self s.world.passwd) s h)

  construct_locked-icon :
      (o : UserObject) (x : Result (Unit {0}) × State UserObject)
      → x.1.world.userinfo o.pw.pw_uid ≡ none
      → o.icon ≡ none
      → icon_of (construct_locked glib os c o x).0 ≡ none
  unfolding construct_locked
  construct_locked-icon o (err e, t) h k = refl
  construct_locked-icon o (ok _, t) h k = user_constructed-icon (record t { self = o }) h k

  named-new :
      (name : Str)
      → let o = set_username_property (some name) new_user in
        (o.pw.pw_uid ≡ invalid_id) × (o.icon ≡ none)
  unfolding set_username_property
  named-new name = ground arith

  -- A user that is looked up by name never has an icon, unless there is a userinfo file of the invalid
  -- id: the file is chosen by the uid that the object has before it is filled in.
  user_new_by_name-icon :
      (name : Option Str) (s : State UserObject)
      → s.world.userinfo invalid_id ≡ none
      → icon_of (user_new_by_name glib os c name s).0 ≡ none
  unfolding user_new_by_name construct_user lock_db
  user_new_by_name-icon none s h = refl
  user_new_by_name-icon (some name) s h =
      let e = named-new name in
      construct_locked-icon (set_username_property (some name) new_user) (lock_db os s) (rw e.0 h)
        e.1
