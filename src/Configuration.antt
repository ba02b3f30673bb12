-- ===== src/Configuration.antt =====
-- src/common/gum-config.c: the configuration, as it is built without ENABLE_DEBUG. Of GLib and libc,
-- paths, the reading of key files and the conversion of numbers are parameters.
pub mod Keys
pub mod Found
use platform_upstream_gumd.Common.{
  ℕ, Bool, true, false, not, ◌&&◌, ◌||◌, Option, none, some, List, [], ◌∷◌, ◌++◌, Str, codes,
  str_eq, leb, ◌==◌, if◌then◌else◌,
}
use platform_upstream_gumd.Common.Int.{ℤ, pos, negsuc}
use platform_upstream_gumd.Configuration.Keys.{
  one_of, int_keys, uint_keys, path_keys, passwd_file, shadow_file, group_file, gshadow_file,
  home_dir, shell, sec_shell, skel_dir, uid_min, uid_max, sys_uid_min, sys_uid_max, sec_uid_min,
  sec_uid_max, gid_min, gid_max, sys_gid_min, sys_gid_max, pass_max_days, pass_min_days,
  pass_warn_age, umask, def_usr_groups, def_admin_groups, encrypt_method,
}

-- The variants that the table holds.
pub data Value : Type 0 where
  int : ℤ → Value
  uint : ℕ → Value
  string : Str → Value

-- The value last set for a key comes first.
pub record GumConfig : Type 0 where
  pub sysroot : Option Str
  pub config_table : List (Str × Value)

-- What `strtol` and `strtoul` give: `failed` is that they set `errno`, `length` how much of the text
-- they read, and `rest` the text from `*endptr` on.
pub record Number (A : Type 0) : Type 0 where
  pub value : A
  pub failed : Bool
  pub length : ℕ
  pub rest : Str

-- The groups of a key file with their keys and values. A group whose keys cannot be read has none;
-- a key that is in the file has a value that can be read.
abbrev pub KeyFile : Type 0
KeyFile = List (Str × Option (List (Str × Str)))

pub record Lib : Type 0 where
  pub build_filename : List Str → Str
  pub access : Str → Bool
  pub load_from_file : Str → Option KeyFile
  pub isspace : ℕ → Bool
  pub strtol : Str → Number ℤ
  pub strtoul : Str → Number ℕ
  -- `tzplatform_getenv (TZ_SYS_HOME)`
  pub tz_sys_home : Option Str

-- What the build defines.
pub record Build : Type 0 where
  pub sysconf_dir : Str
  pub gum_passwd_file : Str
  pub gum_shadow_file : Str
  pub gum_group_file : Str
  pub gum_gshadow_file : Str
  pub gum_home_dir_prefix : Str
  pub gum_shell : Str
  pub gum_skel_dir : Str
  pub gum_umask : ℕ
  pub gum_def_groups : Str
  pub gum_def_admin_groups : Str
  pub gum_encrypt_method : Str

abbrev pub int_max : ℕ
int_max = 2147483647

abbrev pub uint_max : ℕ
uint_max = 4294967295

-- `cv <= INT_MAX && cv >= INT_MIN`
unfoldable pub fits_int : ℤ → Bool
fits_int (pos n) = leb n int_max
fits_int (negsuc n) = leb n int_max

unfoldable pub lookup : List (Str × Value) → Str → Option Value
lookup [] key = none
lookup ((k, v) ∷ rest) key = let later = lookup rest key in if str_eq k key then some v else later

abbrev pub set : Str → Value → GumConfig → GumConfig
set key v c = record c { config_table = (key, v) ∷ c.config_table }

-- A variant of another type is an error of the program, for which GLib gives 0.
abbrev pub int_of : Option Value → ℤ → ℤ
int_of none retval = retval
int_of (some (int n)) retval = n
int_of (some _) retval = pos 0

abbrev pub uint_of : Option Value → ℕ → ℕ
uint_of none retval = retval
uint_of (some (uint n)) retval = n
uint_of (some _) retval = 0

unfoldable pub get_int : GumConfig → Str → ℤ → ℤ
unfolding lookup
get_int c key retval = int_of (lookup c.config_table key) retval

unfoldable pub get_uint : GumConfig → Str → ℕ → ℕ
unfolding lookup
get_uint c key retval = uint_of (lookup c.config_table key) retval

unfoldable pub converted : {A : Type 0} → Number A → Option A
converted n = if n.failed || n.length == 0 || not (str_eq n.rest []) then none else some n.value

-- The sign `-` after white space.
unfoldable pub is_negative : (ℕ → Bool) → Str → Bool
is_negative isspace [] = false
is_negative isspace (c ∷ s) =
    let later = is_negative isspace s in if isspace c then later else c == 45

abbrev pub set_checked_int : Str → Option ℤ → GumConfig → GumConfig
set_checked_int key none c = c
set_checked_int key (some cv) c = if fits_int cv then set key (int cv) c else c

abbrev pub set_checked_uint : Str → Option ℕ → GumConfig → GumConfig
set_checked_uint key none c = c
set_checked_uint key (some cv) c = if leb cv uint_max then set key (uint cv) c else c

module _ (lib : Lib) where
  unfoldable pub convert_strtol : Str → Option ℤ
  unfolding converted
  convert_strtol str = converted (lib.strtol str)

  unfoldable pub convert_strtoul : Str → Option ℕ
  unfolding converted is_negative
  convert_strtoul str = if is_negative lib.isspace str then none else converted (lib.strtoul str)

  -- `path` below the system's root, if that is set and not empty.
  unfoldable pub in_sysroot : Option Str → List Str → List Str
  in_sysroot none path = path
  in_sysroot (some []) path = path
  in_sysroot (some (c ∷ s)) path = (c ∷ s) ∷ path

  unfoldable pub check_config_file : Str → Option Str → Option Str
  unfolding in_sysroot
  check_config_file path sysroot =
      let filename = lib.build_filename (in_sysroot sysroot (path ∷ codes "gumd.conf" ∷ [])) in
      if lib.access filename then some filename else none

  unfoldable pub rooted : Option Str → Str → Str
  rooted none value = value
  rooted (some []) value = value
  rooted (some (c ∷ s)) value = lib.build_filename ((c ∷ s) ∷ value ∷ [])

  unfoldable pub set_string : Str → Str → GumConfig → GumConfig
  unfolding rooted
  set_string key value c =
      set key (string (if one_of path_keys key then rooted c.sysroot value else value)) c

  unfoldable pub load_value : Str → Str → GumConfig → GumConfig
  unfolding convert_strtol convert_strtoul set_string
  load_value key value c =
      if one_of int_keys key
      then set_checked_int key (convert_strtol value) c
      else if one_of uint_keys key
      then set_checked_uint key (convert_strtoul value) c
      else set_string key value c

  unfoldable pub load_keys : Str → List (Str × Str) → GumConfig → GumConfig
  unfolding load_value
  load_keys group [] c = c
  load_keys group ((key, value) ∷ rest) c =
      load_keys group rest (load_value (group ++ 47 ∷ key) value c)

  unfoldable pub load_groups : KeyFile → GumConfig → GumConfig
  unfolding load_keys
  load_groups [] c = c
  load_groups ((group, none) ∷ rest) c = load_groups rest c
  load_groups ((group, some keys) ∷ rest) c = load_groups rest (load_keys group keys c)

  unfoldable pub load_settings : Option KeyFile → GumConfig → Bool × GumConfig
  unfolding load_groups
  load_settings none c = (false, c)
  load_settings (some settings) c = (true, load_groups settings c)

  -- Without a file the settings are empty; a file that cannot be read is the failure.
  unfoldable pub load_found : Option Str → GumConfig → Bool × GumConfig
  unfolding load_settings
  load_found none c = (true, c)
  load_found (some path) c = load_settings (lib.load_from_file path) c

  unfoldable pub set_default : Str × Value → GumConfig → GumConfig
  unfolding set_string
  set_default (key, string value) c = set_string key value c
  set_default (key, value) c = set key value c

  unfoldable pub set_defaults : List (Str × Value) → GumConfig → GumConfig
  unfolding set_default
  set_defaults [] c = c
  set_defaults (d ∷ rest) c = set_defaults rest (set_default d c)

  module _ (b : Build) where
    unfoldable pub load_config : GumConfig → Bool × GumConfig
    unfolding check_config_file load_found
    load_config c = load_found (check_config_file (b.sysconf_dir ++ codes "/gumd") c.sysroot) c

    abbrev pub home_path : Option Str → Str
    home_path none = b.gum_home_dir_prefix
    home_path (some path) = path

    -- The calls of `gum_config_set_…` in `_gum_config_initialize`, in order.
    abbrev pub defaults : List (Str × Value)
    defaults =
        (passwd_file, string b.gum_passwd_file)
        ∷ (shadow_file, string b.gum_shadow_file)
        ∷ (group_file, string b.gum_group_file)
        ∷ (gshadow_file, string b.gum_gshadow_file)
        ∷ (home_dir, string (home_path lib.tz_sys_home))
        ∷ (shell, string b.gum_shell)
        ∷ (sec_shell, string b.gum_shell)
        ∷ (skel_dir, string b.gum_skel_dir)
        ∷ (uid_min, uint 1000)
        ∷ (uid_max, uint 60000)
        ∷ (sys_uid_min, uint 100)
        ∷ (sys_uid_max, uint 999)
        ∷ (sec_uid_min, uint 60001)
        ∷ (sec_uid_max, uint 60100)
        ∷ (gid_min, uint 1000)
        ∷ (gid_max, uint 60000)
        ∷ (sys_gid_min, uint 100)
        ∷ (sys_gid_max, uint 999)
        ∷ (pass_max_days, int (pos 99999))
        ∷ (pass_min_days, int (pos 0))
        ∷ (pass_warn_age, int (pos 7))
        ∷ (umask, uint b.gum_umask)
        ∷ (def_usr_groups, string b.gum_def_groups)
        ∷ (def_admin_groups, string b.gum_def_admin_groups)
        ∷ (encrypt_method, string b.gum_encrypt_method)
        ∷ []

    unfoldable pub config_initialize : GumConfig → GumConfig
    unfolding set_defaults load_config
    config_initialize c = (load_config (set_defaults defaults c)).1

    -- `glob_config` is the one that is there already, whatever its root.
    unfoldable pub config_new : Option GumConfig → Option Str → GumConfig
    unfolding config_initialize
    config_new none root = config_initialize (record { sysroot = root; config_table = [] })
    config_new (some glob_config) root = glob_config
