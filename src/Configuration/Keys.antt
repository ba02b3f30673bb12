-- ===== src/Configuration/Keys.antt =====
-- include/gum/common/gum-config-general.h, gum-config-dbus.h: the keys of the configuration.
use platform_upstream_gumd.Common.{Bool, false, ◌||◌, List, [], ◌∷◌, Str, codes, str_eq}

unfoldable pub one_of : List Str → Str → Bool
unfolding str_eq
one_of [] key = false
one_of (k ∷ rest) key = str_eq k key || one_of rest key

abbrev pub daemon_timeout : Str
daemon_timeout = codes "ObjectTimeouts/DAEMON_TIMEOUT"

abbrev pub user_timeout : Str
user_timeout = codes "ObjectTimeouts/USER_TIMEOUT"

abbrev pub group_timeout : Str
group_timeout = codes "ObjectTimeouts/GROUP_TIMEOUT"

abbrev pub passwd_file : Str
passwd_file = codes "General/PASSWD_FILE"

abbrev pub shadow_file : Str
shadow_file = codes "General/SHADOW_FILE"

abbrev pub group_file : Str
group_file = codes "General/GROUP_FILE"

abbrev pub gshadow_file : Str
gshadow_file = codes "General/GSHADOW_FILE"

abbrev pub home_dir : Str
home_dir = codes "General/HOME_DIR"

abbrev pub shell : Str
shell = codes "General/SHELL"

abbrev pub sec_shell : Str
sec_shell = codes "General/SEC_SHELL"

abbrev pub skel_dir : Str
skel_dir = codes "General/SKEL_DIR"

abbrev pub uid_min : Str
uid_min = codes "General/UID_MIN"

abbrev pub uid_max : Str
uid_max = codes "General/UID_MAX"

abbrev pub sys_uid_min : Str
sys_uid_min = codes "General/SYS_UID_MIN"

abbrev pub sys_uid_max : Str
sys_uid_max = codes "General/SYS_UID_MAX"

abbrev pub sec_uid_min : Str
sec_uid_min = codes "General/SEC_UID_MIN"

abbrev pub sec_uid_max : Str
sec_uid_max = codes "General/SEC_UID_MAX"

abbrev pub gid_min : Str
gid_min = codes "General/GID_MIN"

abbrev pub gid_max : Str
gid_max = codes "General/GID_MAX"

abbrev pub sys_gid_min : Str
sys_gid_min = codes "General/SYS_GID_MIN"

abbrev pub sys_gid_max : Str
sys_gid_max = codes "General/SYS_GID_MAX"

abbrev pub pass_min_days : Str
pass_min_days = codes "General/PASS_MIN_DAYS"

abbrev pub pass_max_days : Str
pass_max_days = codes "General/PASS_MAX_DAYS"

abbrev pub pass_warn_age : Str
pass_warn_age = codes "General/PASS_WARN_AGE"

abbrev pub umask : Str
umask = codes "General/UMASK"

abbrev pub def_usr_groups : Str
def_usr_groups = codes "General/DEFAULT_USR_GROUPS"

abbrev pub def_admin_groups : Str
def_admin_groups = codes "General/DEFAULT_ADMIN_GROUPS"

abbrev pub encrypt_method : Str
encrypt_method = codes "General/ENCRYPT_METHOD"

-- The keys that `_load_config` tests for numbers, and those of which `gum_config_set_string` puts the
-- value below the system's root.
abbrev pub int_keys : List Str
int_keys =
    daemon_timeout ∷ user_timeout ∷ pass_max_days ∷ pass_min_days ∷ pass_warn_age ∷ group_timeout
    ∷ []

abbrev pub uint_keys : List Str
uint_keys =
    uid_min ∷ uid_max ∷ sys_uid_min ∷ sys_uid_max ∷ sec_uid_min ∷ sec_uid_max ∷ gid_min ∷ gid_max
    ∷ sys_gid_min ∷ sys_gid_max ∷ umask ∷ []

abbrev pub path_keys : List Str
path_keys = passwd_file ∷ shadow_file ∷ group_file ∷ gshadow_file ∷ skel_dir ∷ home_dir ∷ []
