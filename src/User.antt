-- ===== src/User.antt =====
-- src/daemon/core/gumd-daemon-user.c: the user object of the daemon, its properties, the callbacks that
-- rewrite the passwd and shadow files, and the list of users. An object is the fields of
-- `GumdDaemonUserPrivate` but the configuration; notifications have no part in the model.
pub mod Gecos
pub mod Ids
pub mod Fields
pub mod Steps
pub mod Operations
pub mod Entries
pub mod Listing
use platform_upstream_gumd.Common.{
  ℕ, Bool, not, ◌&&◌, Option, none, some, List, [], Str, strcmp0_eq, ltb, ◌==◌, if◌then◌else◌,
}
use platform_upstream_gumd.Common.Int.{ℤ, pos}
use platform_upstream_gumd.Error.{succeeds}
use platform_upstream_gumd.Database.{Passwd, Spwd}
use platform_upstream_gumd.StringUtils.{Strv, get_string, insert_string}
use platform_upstream_gumd.Validate.{
  validate_name, validate_db_string_entry, validate_db_secret_entry,
}
use platform_upstream_gumd.File.{invalid_id}
use platform_upstream_gumd.UserTypes.{
  usertype_none, usertype_max_value, type_from_string, type_to_string,
}

pub record UserObject : Type 0 where
  pub nick_name : Option Str
  pub pw : Passwd
  pub shadow : Spwd
  pub icon : Option Str

-- `GecosField`, by its numbers
pub data GecosField : Type 0 where
  realname office officephone homephone usertype : GecosField

abbrev pub place : GecosField → ℕ
place realname = 0
place office = 1
place officephone = 2
place homephone = 3
place usertype = 4

abbrev pub gecos_field_count : ℕ
gecos_field_count = 5

-- `gumd_daemon_user_init`
abbrev pub new_user : UserObject
new_user = record {
  nick_name = none;
  pw = record {
    pw_name = none;
    pw_passwd = none;
    pw_uid = invalid_id;
    pw_gid = invalid_id;
    pw_gecos = none;
    pw_dir = none;
    pw_shell = none;
  };
  shadow = record {
    sp_namp = none;
    sp_pwdp = none;
    sp_lstchg = pos 0;
    sp_min = pos 0;
    sp_max = pos 0;
    sp_warn = pos 0;
    sp_inact = pos 0;
    sp_expire = pos 0;
    sp_flag = pos 0;
  };
  icon = none;
}

unfoldable pub set_uid_property : ℕ → UserObject → UserObject
set_uid_property value o =
    if not (o.pw.pw_uid == value) then record o { pw = record (o.pw) { pw_uid = value } } else o

unfoldable pub set_user_gid_property : ℕ → UserObject → UserObject
set_user_gid_property value o =
    if not (o.pw.pw_gid == value) then record o { pw = record (o.pw) { pw_gid = value } } else o

unfoldable pub set_username_property : Option Str → UserObject → UserObject
set_username_property value o =
    if not (strcmp0_eq value o.pw.pw_name) && succeeds (validate_name value)
    then record o { pw = record (o.pw) { pw_name = value } }
    else o

unfoldable pub set_user_secret_property : Option Str → UserObject → UserObject
set_user_secret_property value o =
    if not (strcmp0_eq value o.pw.pw_passwd) && succeeds (validate_db_secret_entry value)
    then record o { pw = record (o.pw) { pw_passwd = value } }
    else o

unfoldable pub set_nickname_property : Option Str → UserObject → UserObject
set_nickname_property value o =
    if not (strcmp0_eq value o.nick_name) && succeeds (validate_db_string_entry value)
    then record o { nick_name = value }
    else o

unfoldable pub set_homedir_property : Option Str → UserObject → UserObject
set_homedir_property value o =
    if not (strcmp0_eq value o.pw.pw_dir) && succeeds (validate_db_string_entry value)
    then record o { pw = record (o.pw) { pw_dir = value } }
    else o

unfoldable pub set_shell_property : Option Str → UserObject → UserObject
set_shell_property value o =
    if not (strcmp0_eq value o.pw.pw_shell) && succeeds (validate_db_string_entry value)
    then record o { pw = record (o.pw) { pw_shell = value } }
    else o

unfoldable pub set_icon_property : Option Str → UserObject → UserObject
set_icon_property value o =
    if not (strcmp0_eq value o.icon) && succeeds (validate_db_string_entry value)
    then record o { icon = value }
    else o

module _ (glib : Strv) where
  abbrev pub gecos_string : Option Str → GecosField → Option Str
  gecos_string gecos field = get_string glib gecos (some b',') (place field)

  unfoldable pub with_gecos : GecosField → Option Str → UserObject → UserObject
  with_gecos field value o = record o {
    pw = record (o.pw) {
      pw_gecos = insert_string glib o.pw.pw_gecos (some b',') value (place field) gecos_field_count;
    };
  }

  -- `_get_usertype_from_gecos` of an entry's gecos
  unfoldable pub usertype_from_gecos : Option Str → ℕ
  usertype_from_gecos none = usertype_none
  usertype_from_gecos (some gecos) = type_from_string (gecos_string (some gecos) usertype)

  -- `_set_realname_property`, `_set_office_property`, `_set_officephone_property` and
  -- `_set_homephone_property`, which differ in the field.
  unfoldable pub set_gecos_property : GecosField → Option Str → UserObject → UserObject
  unfolding with_gecos
  set_gecos_property field value o =
      if not (strcmp0_eq value (gecos_string o.pw.pw_gecos field))
        && succeeds (validate_db_string_entry value)
      then with_gecos field value o
      else o

  unfoldable pub set_usertype_property : ℕ → UserObject → UserObject
  unfolding with_gecos usertype_from_gecos
  set_usertype_property value o =
      if ltb usertype_none value
        && ltb value usertype_max_value
        && not (usertype_from_gecos o.pw.pw_gecos == value)
      then with_gecos usertype (type_to_string value) o
      else o
