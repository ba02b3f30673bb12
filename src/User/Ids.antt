-- ===== src/User/Ids.antt =====
-- src/daemon/core/gumd-daemon-user.c: the name, the id and the home directory of a new user.
pub mod Free
use platform_upstream_gumd.Common.{
  ℕ, Bool, true, false, Option, none, some, Str, [], ◌∷◌, ◌++◌, ltb, ◌==◌, if◌then◌else◌,
}
use platform_upstream_gumd.Error
use platform_upstream_gumd.Database.{Passwd}
use platform_upstream_gumd.StringUtils.{Strv}
use platform_upstream_gumd.Validate.{validate_name, generate_username}
use platform_upstream_gumd.UserTypes.{usertype_system, usertype_security}
use platform_upstream_gumd.File.{DbFiles, invalid_id, getpwnam, getpwuid}
use platform_upstream_gumd.Ids.{Range, find_in_range}
use platform_upstream_gumd.World.{
  Config, get_uint, Os, Action, fail, gets, lift, ◌>>=◌, ◌>>◌, require, set_self, when,
}
use platform_upstream_gumd.User.{
  UserObject, realname, gecos_string, usertype_from_gecos, set_gecos_property, set_uid_property,
  set_username_property, set_homedir_property,
}

-- `_get_default_uid_range`
unfoldable pub get_default_uid_range : Config → ℕ → Range
get_default_uid_range c ut =
    let choose : Option ℕ → Option ℕ → Option ℕ → ℕ = λ sys sec usr.
      if ut == usertype_system
      then get_uint sys invalid_id
      else if ut == usertype_security
      then get_uint sec invalid_id
      else get_uint usr invalid_id in
    let lo = choose c.sys_uid_min c.sec_uid_min c.uid_min in
    let hi = choose c.sys_uid_max c.sec_uid_max c.uid_max in
    record { min = lo; max = hi; proper = ltb lo hi }

abbrev pub is_some {ℓ} : {A : Type ℓ} → Option A → Bool
is_some none = false
is_some (some a) = true

module _ (glib : Strv) where
  abbrev pub type_of : UserObject → ℕ
  type_of o = usertype_from_gecos glib o.pw.pw_gecos

  unfoldable pub find_free_uid : Config → DbFiles Passwd → UserObject → Option ℕ
  unfolding get_default_uid_range find_in_range
  find_free_uid c f o = find_in_range (λ uid. getpwuid uid f) (get_default_uid_range c (type_of o))

  -- A real name that is missing is the user name.
  unfoldable pub default_realname : UserObject → UserObject
  unfolding set_gecos_property
  default_realname o = elim (gecos_string glib o.pw.pw_gecos realname) [
    | none ↦ set_gecos_property glib realname o.pw.pw_name o
    | some _ ↦ o
  ]

  module _ (os : Os) where
    -- From the name that is generated on; FALSE with no error, for a name that is refused, is not
    -- met with one that has been checked.
    unfoldable pub name_generated : Str → Action UserObject (Unit {0})
    unfolding default_realname
    name_generated tname = do
      set_self (set_username_property (some tname))
      name ← gets (λ s. s.self.pw.pw_name)
      require (is_some name) Error.no_error
      set_self default_realname

    -- The arguments are `pw_name` and `nick_name`.
    unfoldable pub name_from : Option Str → Option Str → Action UserObject (Unit {0})
    unfolding name_generated
    name_from none none = fail Error.invalid_name
    name_from (some name) nick = do lift (validate_name (some name)); set_self default_realname
    name_from none (some nick) = do
      system ← gets (λ s. type_of s.self == usertype_system)
      require (if system then false else true) Error.invalid_name
      tname ← lift (generate_username os.md5 (some nick))
      name_generated tname

    unfoldable pub set_daemon_user_name : Action UserObject (Unit {0})
    unfolding name_from
    set_daemon_user_name s = name_from s.self.pw.pw_name s.self.nick_name s

    abbrev text : Option Str → Str
    text none = []
    text (some s) = s

    -- "%s/%s"; the name is set by then.
    unfoldable pub set_home : Config → UserObject → UserObject
    unfolding set_homedir_property
    set_home c o = set_homedir_property (some (c.home_dir_pref ++ b'/' ∷ text o.pw.pw_name)) o

    -- The id that has been found, if one has; a user of the system has no home directory.
    unfoldable pub take_uid : Config → Option ℕ → Action UserObject (Unit {0})
    unfolding set_home
    take_uid c none = fail Error.user_uid_not_available
    take_uid c (some uid) = do
      set_self (set_uid_property uid)
      system ← gets (λ s. type_of s.self == usertype_system)
      when (if system then false else true) (set_self (set_home c))

    -- `_set_uid` once the name is set.
    unfoldable pub choose_uid : Config → Action UserObject (Unit {0})
    unfolding find_free_uid take_uid
    choose_uid c = do
      known ← gets (λ s. getpwnam s.self.pw.pw_name s.world.passwd)
      require (if is_some known then false else true) Error.user_already_exists
      free ← gets (λ s. find_free_uid c s.world.passwd s.self)
      take_uid c free

    unfoldable pub set_uid : Config → Action UserObject (Unit {0})
    unfolding set_daemon_user_name choose_uid
    set_uid c = do set_daemon_user_name; choose_uid c
