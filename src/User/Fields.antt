-- ===== src/User/Fields.antt =====
-- src/daemon/core/gumd-daemon-user.c: the fields of a user object that the operations fill in, from what
-- is configured or from the entries of the files; and the userinfo files, which hold an icon.
use platform_upstream_gumd.Common.{
  ℕ, false, not, ◌&&◌, ◌||◌, Option, none, some, Str, codes, [], strcmp0_eq, ◌==◌, if◌then◌else◌,
}
use platform_upstream_gumd.Common.Int.{pos, negsuc}
use platform_upstream_gumd.Error.{Error, Result, ok, err}
use platform_upstream_gumd.Database.{Passwd, Spwd}
use platform_upstream_gumd.StringUtils.{Strv}
use platform_upstream_gumd.Crypt.{encrypt_secret}
use platform_upstream_gumd.UserTypes.{usertype_system, usertype_guest}
use platform_upstream_gumd.File.{DbFiles, invalid_id, getpwnam, getpwuid, getspnam}
use platform_upstream_gumd.World.{
  Config, get_int, Os, State, World, UserInfos, Action, gets, ◌>>=◌, ◌>>◌, set_self, ticked,
}
use platform_upstream_gumd.User.{
  UserObject, GecosField, realname, office, officephone, homephone, gecos_string,
  usertype_from_gecos, set_gecos_property, set_usertype_property, set_uid_property,
  set_user_gid_property, set_username_property, set_user_secret_property, set_homedir_property,
  set_shell_property, set_icon_property,
}
use platform_upstream_gumd.User.Ids.{type_of}
use platform_upstream_gumd.User.Entries.{copy_shadow_struct}

module _ (glib : Strv) where
  -- The secret "*", "!" or "" of a user with none: no password that is typed gives the first two.
  unfoldable pub without_user_secret : UserObject → UserObject
  unfolding set_user_secret_property
  without_user_secret o =
      let ut = type_of glib o in
      let spent =
        if ut == usertype_system
        then codes "*"
        else if ut == usertype_guest
        then codes ""
        else codes "!" in
      set_user_secret_property (some (codes "x"))
        (record o { shadow = record (o.shadow) { sp_pwdp = some spent } })

  -- The plain text is overwritten by zeros, and then replaced by "x".
  unfoldable pub store_user_secret : Option Str → Action UserObject (Unit {0})
  unfolding set_user_secret_property
  store_user_secret none s = (
    err Error.user_secret_encrypt_failure,
    record s {
      self = record (s.self) { shadow = record (s.self.shadow) { sp_pwdp = none } };
      world = ticked s.world;
    },
  )
  store_user_secret (some enc) s = (
    ok tt,
    record s {
      self = set_user_secret_property (some (codes "x")) (record (s.self) {
        shadow = record (s.self.shadow) { sp_pwdp = some enc };
        pw = record (s.self.pw) { pw_passwd = some (codes "") };
      });
      world = ticked s.world;
    },
  )

  module _ (os : Os) (c : Config) where
    -- The argument is `pw_passwd`.
    unfoldable pub user_secret_from : Option Str → Action UserObject (Unit {0})
    unfolding without_user_secret store_user_secret
    user_secret_from none s = (ok tt, record s { self = without_user_secret s.self })
    user_secret_from (some secret) s =
        store_user_secret
          (encrypt_secret os.crypt (os.urandom s.world.calls) secret c.encrypt_method) s

    -- `_set_secret`
    unfoldable pub set_user_secret : Action UserObject (Unit {0})
    unfolding user_secret_from
    set_user_secret s = user_secret_from s.self.pw.pw_passwd s

    -- The flag is ~0UL, which is written as an empty field. The last change on day 0 would ask for a new password, so there is none instead.
    unfoldable pub with_ages : ℕ → UserObject → UserObject
    with_ages today o = record o {
      shadow = record (o.shadow) {
        sp_lstchg = if today == 0 then negsuc 0 else pos today;
        sp_min = get_int c.pass_min_days;
        sp_max = get_int c.pass_max_days;
        sp_warn = get_int c.pass_warn_age;
        sp_inact = negsuc 0;
        sp_expire = negsuc 0;
        sp_flag = negsuc 0;
      };
    }

    unfoldable pub set_shadow_data : Action UserObject (Unit {0})
    unfolding set_user_secret with_ages
    set_shadow_data = do
      set_self (λ o. record o { shadow = record (o.shadow) { sp_namp = o.pw.pw_name } })
      set_user_secret
      today ← gets (λ s. os.today s.world.calls)
      set_self (with_ages today)

  -- `_get_passwd`: the entry that the object's uid and name, so far as they are set, both belong to.
  unfoldable pub get_passwd : UserObject → DbFiles Passwd → Result Passwd
  get_passwd o f =
      let uid_set = not (o.pw.pw_uid == invalid_id) in
      let by_uid = if uid_set then getpwuid o.pw.pw_uid f else none in
      let found : Option Passwd = elim by_uid [
        | some pwd ↦ some pwd
        | none ↦ elim o.pw.pw_name [ none ↦ none | some name ↦ getpwnam (some name) f ]
      ] in
      elim found [
        | none ↦ err Error.user_not_found
        | some pwd ↦
            if uid_set && not (o.pw.pw_uid == pwd.pw_uid) || elim o.pw.pw_name [
              | none ↦ false
              | some name ↦ not (strcmp0_eq (some name) pwd.pw_name)
            ]
            then err Error.user_not_found
            else ok pwd
      ]

  -- The steps of `_copy_passwd_struct`.
  unfoldable pub copy_names : Passwd → UserObject → UserObject
  unfolding set_username_property set_user_secret_property set_uid_property set_user_gid_property
  copy_names src o = set_user_gid_property src.pw_gid (
      set_uid_property src.pw_uid
        (set_user_secret_property src.pw_passwd (set_username_property src.pw_name o)))

  unfoldable pub copy_field : Passwd → GecosField → UserObject → UserObject
  unfolding set_gecos_property
  copy_field src field o = set_gecos_property glib field (gecos_string glib src.pw_gecos field) o

  unfoldable pub copy_fields : Passwd → UserObject → UserObject
  unfolding copy_field
  copy_fields src o =
      copy_field src homephone
        (copy_field src officephone (copy_field src office (copy_field src realname o)))

  unfoldable pub copy_type : Passwd → UserObject → UserObject
  unfolding set_usertype_property
  copy_type src o = set_usertype_property glib (usertype_from_gecos glib src.pw_gecos) o

  unfoldable pub copy_paths : Passwd → UserObject → UserObject
  unfolding set_homedir_property set_shell_property
  copy_paths src o = set_shell_property src.pw_shell (set_homedir_property src.pw_dir o)

  unfoldable pub copy_passwd_struct : Passwd → UserObject → UserObject
  unfolding copy_names copy_fields copy_type copy_paths
  copy_passwd_struct src o = copy_paths src (copy_type src (copy_fields src (copy_names src o)))

  -- `_get_userinfo`: the icon, NULL if there is no file to be read, and "" if the file has none.
  unfoldable pub get_userinfo : Config → UserObject → UserInfos → Option Str
  get_userinfo c o infos = elim c.userinfo_dir [
    | none ↦ none
    | some path ↦ elim (infos o.pw.pw_uid) [
      | none ↦ none
      | some icon ↦ elim icon [ none ↦ some [] | some s ↦ some s ]
    ]
  ]

  -- Both entries and the icon; the icon's file is that of the object's uid before it is copied.
  unfoldable pub copy_user_entries : Passwd → Spwd → Option Str → UserObject → UserObject
  unfolding copy_passwd_struct copy_shadow_struct set_icon_property
  copy_user_entries pent spent icon o =
      let o1 = copy_passwd_struct pent o in
      set_icon_property icon (record o1 { shadow = copy_shadow_struct spent o1.shadow false })

  abbrev pub found_or : {A : Type 0} → Option A → Error → Result A
  found_or none e = err e
  found_or (some a) e = ok a

  -- With the shadow entry, if there is one.
  unfoldable pub take_entries : Config → Passwd → Option Spwd → Action UserObject (Unit {0})
  unfolding get_userinfo copy_user_entries
  take_entries c pent none s = (err Error.user_not_found, s)
  take_entries c pent (some spent) s =
      let icon = get_userinfo c s.self s.world.userinfo in
      (ok tt, record s { self = copy_user_entries pent spent icon s.self })

  unfoldable pub copy_found : Config → Result Passwd → Action UserObject (Unit {0})
  unfolding take_entries
  copy_found c (err e) s = (err e, s)
  copy_found c (ok pent) s = take_entries c pent (getspnam pent.pw_name s.world.shadow) s

  unfoldable pub copy_passwd_data : Config → Action UserObject (Unit {0})
  unfolding get_passwd copy_found
  copy_passwd_data c s = copy_found c (get_passwd s.self s.world.passwd) s

abbrev put_info : ℕ → Option (Option Str) → UserInfos → UserInfos
put_info uid info infos id = if id == uid then info else infos id

module _ (os : Os) (c : Config) where
  -- The file that is written, if a directory is configured and the file can be saved.
  abbrev save_userinfo : Option Str → State UserObject → World → World
  save_userinfo icon s w = elim c.userinfo_dir [
    | none ↦ w
    | some path ↦
        if os.userinfo_saved w.calls
        then ticked (record w { userinfo = put_info s.self.pw.pw_uid (some icon) w.userinfo })
        else ticked w
  ]

  -- `_add_userinfo`, whose result no caller reads.
  unfoldable pub add_userinfo : Action UserObject (Unit {0})
  add_userinfo s = (ok tt, record s { world = save_userinfo s.self.icon s s.world })

  abbrev old_icon : Option (Option Str) → Option Str
  old_icon none = none
  old_icon (some icon) = icon

  -- `_update_userinfo` with an icon, or with NULL.
  unfoldable pub update_userinfo : Option Str → Action UserObject (Unit {0})
  update_userinfo none s =
      let w = s.world in
      (ok tt, record s { world = save_userinfo (old_icon (w.userinfo s.self.pw.pw_uid)) s w })
  update_userinfo (some icon) s = (ok tt, record s { world = save_userinfo (some icon) s s.world })

  unfoldable pub delete_userinfo : Action UserObject (Unit {0})
  delete_userinfo s =
      let w = s.world in
      (
        ok tt,
        record s {
          world = elim c.userinfo_dir [
            | none ↦ w
            | some path ↦ record w { userinfo = put_info s.self.pw.pw_uid none w.userinfo }
          ];
        },
      )
