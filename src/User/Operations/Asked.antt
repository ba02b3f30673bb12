-- ===== src/User/Operations/Asked.antt =====
-- The id and the name of an object that is filled from the entry that belongs to it.
use platform_upstream_gumd.Common.{
  ◌≡◌, ◌≢◌, ◌⊎◌, inl, inr, refl, ◌∙◌, Option, none, some, Str, strcmp0_eq_iff, arith,
}
use platform_upstream_gumd.Error.{Result, ok, err}
use platform_upstream_gumd.Database.{Passwd, Spwd}
use platform_upstream_gumd.StringUtils.{Strv}
use platform_upstream_gumd.File.{DbFiles, invalid_id}
use platform_upstream_gumd.World.{Config, State}
use platform_upstream_gumd.World.Post.{Post}
use platform_upstream_gumd.User.{
  UserObject, GecosField, realname, office, officephone, homephone, set_username_property,
  set_user_secret_property, set_uid_property, set_user_gid_property, set_homedir_property,
  set_shell_property, set_icon_property, set_gecos_property, set_usertype_property, with_gecos,
}
use platform_upstream_gumd.User.Fields.{
  copy_names, copy_field, copy_fields, copy_type, copy_paths, copy_passwd_struct, copy_user_entries,
  get_passwd, take_entries, copy_found, copy_passwd_data,
}

-- The object has the id of the one before, and the name, if that had one.
abbrev pub Asked : UserObject → UserObject → Type 0
Asked before o =
    (o.pw.pw_uid ≡ before.pw.pw_uid)
    × ((before.pw.pw_name ≡ none) ⊎ (o.pw.pw_name ≡ before.pw.pw_name))

-- The entry has it.
abbrev Fits : UserObject → Passwd → Type 0
Fits before pw =
    (pw.pw_uid ≡ before.pw.pw_uid) × ((before.pw.pw_name ≡ none) ⊎ (pw.pw_name ≡ before.pw.pw_name))

abbrev Keeps : UserObject → UserObject → Type 0
Keeps before o = (o.pw.pw_uid ≡ before.pw.pw_uid) × (o.pw.pw_name ≡ before.pw.pw_name)

Keeps-Keeps : (a b o : UserObject) → Keeps a b → Keeps b o → Keeps a o
Keeps-Keeps a b o h k = (k.0 ∙ h.0, k.1 ∙ h.1)

Asked-Keeps : (a b o : UserObject) → Asked a b → Keeps b o → Asked a o
Asked-Keeps a b o (u, inl n) k = (k.0 ∙ u, inl n)
Asked-Keeps a b o (u, inr n) k = (k.0 ∙ u, inr (k.1 ∙ n))

module _ (glib : Strv) (pw : Passwd) where
  copy_names-Asked : (o : UserObject) → Fits o pw → Asked o (copy_names glib pw o)
  unfolding copy_names set_user_gid_property set_uid_property set_user_secret_property
      set_username_property
  copy_names-Asked o h = ground arith

  copy_field-Keeps : (field : GecosField) (o : UserObject) → Keeps o (copy_field glib pw field o)
  unfolding copy_field set_gecos_property with_gecos
  copy_field-Keeps field o = ground arith

  copy_fields-Keeps : (o : UserObject) → Keeps o (copy_fields glib pw o)
  unfolding copy_fields
  copy_fields-Keeps o =
      let o1 = copy_field glib pw realname o in
      let o2 = copy_field glib pw office o1 in
      let o3 = copy_field glib pw officephone o2 in
      ground (
        arith,
        copy_field-Keeps homephone o3,
        copy_field-Keeps officephone o2,
        copy_field-Keeps office o1,
        copy_field-Keeps realname o,
      )

  copy_type-Keeps : (o : UserObject) → Keeps o (copy_type glib pw o)
  unfolding copy_type set_usertype_property with_gecos
  copy_type-Keeps o = ground arith

  copy_paths-Keeps : (o : UserObject) → Keeps o (copy_paths glib pw o)
  unfolding copy_paths set_shell_property set_homedir_property
  copy_paths-Keeps o = ground arith

  copy_passwd_struct-Asked : (o : UserObject) → Fits o pw → Asked o (copy_passwd_struct glib pw o)
  unfolding copy_passwd_struct
  copy_passwd_struct-Asked o h =
      let o1 = copy_names glib pw o in
      let o2 = copy_fields glib pw o1 in
      let o3 = copy_type glib pw o2 in
      Asked-Keeps o o1 (copy_paths glib pw o3) (copy_names-Asked o h) (
        Keeps-Keeps o1 o2 (copy_paths glib pw o3) (copy_fields-Keeps o1)
          (Keeps-Keeps o2 o3 (copy_paths glib pw o3) (copy_type-Keeps o2) (copy_paths-Keeps o3)))

  copy_user_entries-Asked :
      (sp : Spwd) (icon : Option Str) (o : UserObject)
      → Fits o pw
      → Asked o (copy_user_entries glib pw sp icon o)
  unfolding copy_user_entries set_icon_property
  copy_user_entries-Asked sp icon o h = ground (arith, copy_passwd_struct-Asked o h)

-- The entry that is found has the id and the name of the object, if they are set.
get_passwd-Fits :
    (glib : Strv) (o : UserObject) (f : DbFiles Passwd) (pw : Passwd)
    → o.pw.pw_uid ≢ invalid_id
    → get_passwd glib o f ≡ ok pw
    → Fits o pw
unfolding get_passwd
get_passwd-Fits glib o f pw u e = ground (arith, strcmp0_eq_iff o.pw.pw_name pw.pw_name)

take_entries-Asked :
    (glib : Strv) (c : Config) (pw : Passwd) (shadow : Option Spwd) (s : State UserObject)
    → Fits s.self pw
    → Post
        (λ _ t. (t.world ≡ s.world) × Asked s.self t.self)
        (λ t. t.world ≡ s.world)
        (take_entries glib c pw shadow s)
unfolding take_entries
take_entries-Asked glib c pw none s h = refl
take_entries-Asked glib c pw (some sp) s h = (refl, copy_user_entries-Asked glib pw sp _ s.self h)

copy_found-Asked :
    (glib : Strv) (c : Config) (found : Result Passwd) (s : State UserObject)
    → s.self.pw.pw_uid ≢ invalid_id
    → get_passwd glib s.self s.world.passwd ≡ found
    → Post
        (λ _ t. (t.world ≡ s.world) × Asked s.self t.self)
        (λ t. t.world ≡ s.world)
        (copy_found glib c found s)
unfolding copy_found take_entries
copy_found-Asked glib c (err e) s u h = refl
copy_found-Asked glib c (ok pw) s u h =
    take_entries-Asked glib c pw _ s (get_passwd-Fits glib s.self s.world.passwd pw u h)

pub copy_passwd_data-Asked :
    (glib : Strv) (c : Config) (s : State UserObject)
    → s.self.pw.pw_uid ≢ invalid_id
    → Post
        (λ _ t. (t.world ≡ s.world) × Asked s.self t.self)
        (λ t. t.world ≡ s.world)
        (copy_passwd_data glib c s)
unfolding copy_passwd_data
copy_passwd_data-Asked glib c s u =
    copy_found-Asked glib c (get_passwd glib s.self s.world.passwd) s u refl
