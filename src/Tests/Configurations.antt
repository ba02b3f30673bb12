-- ===== src/Tests/Configurations.antt =====
-- A configuration file with a number that does not fit and one that is no number.
use platform_upstream_gumd.Common.{
  ℕ, ◌+◌, ◌-◌, ◌*◌, suc, true, false, none, some, List, [], ◌∷◌, ◌++◌, Str, codes, ◌≡◌, refl,
  str_eq, ltb, ◌||◌, if◌then◌else◌, arith,
}
use platform_upstream_gumd.Common.Int.{ℤ, pos}
use platform_upstream_gumd.Configuration.Keys.{
  one_of, uid_min, uid_max, umask, shell, passwd_file, daemon_timeout,
}
use platform_upstream_gumd.Configuration.{
  Number, Lib, Build, KeyFile, GumConfig, lookup, get_int, get_uint, config_new, fits_int, string,
}
use platform_upstream_gumd.Configuration.Found.{Found, config_new-Found}

-- The number at the beginning of a text, how much of it is read, and what follows.
unfoldable digits : ℕ → ℕ → Str → Number ℕ
digits n read [] = record { value = n; failed = false; length = read; rest = [] }
digits n read (c ∷ s) =
    let more = digits (10 * n + (c - 48)) (suc read) s in
    if ltb c 48 || ltb 57 c
    then record { value = n; failed = false; length = read; rest = c ∷ s }
    else more

abbrev signed : Number ℕ → Number ℤ
signed n = record { value = pos n.value; failed = n.failed; length = n.length; rest = n.rest }

abbrev settings : KeyFile
settings =
    (codes "ObjectTimeouts", none)
    ∷ (
      codes "General",
      some (
          (codes "UID_MIN", codes "500")
          ∷ (codes "UID_MAX", codes "4294967296")
          ∷ (codes "UMASK", codes "-1")
          ∷ (codes "SHELL", codes "/bin/sh")
          ∷ (codes "PASSWD_FILE", codes "pw")
          ∷ []),
    )
    ∷ []

abbrev joined : List Str → Str
joined [] = []
joined (s ∷ rest) = 47 ∷ s ++ joined rest

abbrev lib : Lib
lib = record {
  build_filename = joined;
  access = λ path. true;
  load_from_file = λ path. some settings;
  isspace = λ c. false;
  strtol = λ s. signed (digits 0 0 s);
  strtoul = digits 0 0;
  tz_sys_home = some (codes "/home");
}

abbrev build : Build
build = record {
  sysconf_dir = codes "/etc";
  gum_passwd_file = codes "/etc/passwd";
  gum_shadow_file = codes "/etc/shadow";
  gum_group_file = codes "/etc/group";
  gum_gshadow_file = codes "/etc/gshadow";
  gum_home_dir_prefix = codes "/home";
  gum_shell = codes "/bin/bash";
  gum_skel_dir = codes "/etc/skel";
  gum_umask = 63;
  gum_def_groups = [];
  gum_def_admin_groups = [];
  gum_encrypt_method = codes "SHA512";
}

abbrev created : GumConfig
created = config_new lib build none (some (codes "r"))

values_read :
    (get_uint created uid_min 7 ≡ 500)
    × (get_uint created uid_max 7 ≡ 60000)
    × (get_uint created umask 7 ≡ 63)
    × (get_int created daemon_timeout (pos 5) ≡ pos 5)
    × (lookup created.config_table shell ≡ some (string (codes "/bin/sh")))
    × (lookup created.config_table passwd_file ≡ some (string (codes "/r/pw")))
unfolding get_uint get_int config_new digits str_eq one_of fits_int
values_read = (refl, refl, refl, refl, refl, refl)

config_new-Found_example : Found uid_min (lookup created.config_table uid_min)
config_new-Found_example = config_new-Found lib build (ground arith) (some (codes "r")) uid_min
