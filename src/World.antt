-- ===== src/World.antt =====
-- What the daemon's operations read and change outside their object: the lock, the four databases
-- and the scripts that have been run; and how the calls of the system turn out. An operation on an
-- object is an `Action`: it returns TRUE with a value or FALSE with an error, and in both cases
-- leaves a new state behind. Scripts are taken to leave the databases alone.
pub mod Locking
pub mod Post
pub mod Frame
use platform_upstream_gumd.Common.{
  ℕ, suc, Bool, true, false, not, Option, none, some, List, [], ◌∷◌, Str, if◌then◌else◌,
}
use platform_upstream_gumd.Common.Int.{ℤ, negsuc}
use platform_upstream_gumd.Error.{Error, Result, ok, err, db_already_locked}
use platform_upstream_gumd.Database.{Group, Sgrp, Passwd, Spwd}
use platform_upstream_gumd.File.{DbFiles, Io, UpdateCb, update}
use platform_upstream_gumd.Session.{Login}
use platform_upstream_gumd.Home.{HomeIo, Homes, Node}
use platform_upstream_gumd.Lock.{Lock, pwdf_lock, pwdf_unlock}

-- The keys of gum-config.c that the operations read; `none` is a key with no value. The umask is
-- read for the home directory alone, where it is part of what a new directory is given.
pub record Config : Type 0 where
  pub sys_gid_min : Option ℕ
  pub sys_gid_max : Option ℕ
  pub gid_min : Option ℕ
  pub gid_max : Option ℕ
  pub sys_uid_min : Option ℕ
  pub sys_uid_max : Option ℕ
  pub sec_uid_min : Option ℕ
  pub sec_uid_max : Option ℕ
  pub uid_min : Option ℕ
  pub uid_max : Option ℕ
  pub encrypt_method : Option Str
  pub shell : Option Str
  pub sec_shell : Option Str
  pub home_dir_pref : Str
  pub usr_primary_grpname : Option Str
  pub def_usr_groups : Option Str
  pub def_admin_groups : Option Str
  pub pass_min_days : Option ℤ
  pub pass_max_days : Option ℤ
  pub pass_warn_age : Option ℤ
  pub userinfo_dir : Option Str

-- `gum_config_get_uint (config, key, default)`
abbrev pub get_uint : Option ℕ → ℕ → ℕ
get_uint none d = d
get_uint (some n) d = n

-- `gum_config_get_int (config, key, -1)`
abbrev pub get_int : Option ℤ → ℤ
get_int none = negsuc 0
get_int (some n) = n

-- The outcomes of system calls. What may differ from call to call is given by the number of the
-- calls so far.
pub record Os : Type 0 where
  pub lckpwdf_ok : ℕ → Bool
  pub ulckpwdf_ok : ℕ → Bool
  pub group_io : ℕ → Io Group
  pub gshadow_io : ℕ → Io Sgrp
  pub passwd_io : ℕ → Io Passwd
  pub shadow_io : ℕ → Io Spwd
  pub urandom : ℕ → Option Str
  pub crypt : Str → Str → Option Str
  pub getuid : ℕ
  pub geteuid : ℕ
  pub getegid : ℕ
  -- `time ((time_t *) 0) / GUMD_DAY`
  pub today : ℕ → ℕ
  pub md5 : Str → Str
  pub login : ℕ → Login
  pub home_io : ℕ → HomeIo
  -- `g_key_file_save_to_file`
  pub userinfo_saved : ℕ → Bool

pub data ScriptDir : Type 0 where
  groupadd_dir groupdel_dir useradd_dir userdel_dir : ScriptDir

-- A run of the scripts of a directory, with the arguments that they are given.
pub record ScriptRun : Type 0 where
  pub dir : ScriptDir
  pub name : Option Str
  pub id : ℕ
  pub ids : List ℕ

pub record UserScriptRun : Type 0 where
  pub dir : ScriptDir
  pub username : Str
  pub uid : ℕ
  pub gid : ℕ
  pub homedir : Str
  pub usertype : Option Str

-- The file of a user in the userinfo directory, if there is one, has an icon or none.
abbrev pub UserInfos : Type 0
UserInfos = ℕ → Option (Option Str)

pub record World : Type 0 where
  pub lock : Lock
  pub group : DbFiles Group
  pub gshadow : DbFiles Sgrp
  pub passwd : DbFiles Passwd
  pub shadow : DbFiles Spwd
  pub scripts : List ScriptRun
  pub user_scripts : List UserScriptRun
  pub userinfo : UserInfos
  pub homes : Homes
  -- What is found at the path of the skeleton of a home directory.
  pub skel : Option Node
  pub calls : ℕ

pub record State (O : Type 0) : Type 0 where
  pub self : O
  pub world : World

abbrev pub Action : Type 0 → Type 0 → Type 0
Action O A = State O → Result A × State O

module _ {O A : Type 0} where
  unfoldable pub pure : A → Action O A
  pure a s = (ok a, s)

  unfoldable pub fail : Error → Action O A
  fail e s = (err e, s)

  unfoldable pub gets : (State O → A) → Action O A
  gets f s = (ok (f s), s)

  unfoldable pub lift : Result A → Action O A
  lift r s = (r, s)

abbrev pub resume : {O A B : Type 0} → (A → Action O B) → Result A × State O → Result B × State O
resume f (ok a, s) = f a s
resume f (err e, s) = (err e, s)

infixl 5 ◌>>=◌ ◌>>◌
unfoldable pub ◌>>=◌ : {O A B : Type 0} → Action O A → (A → Action O B) → Action O B
◌>>=◌ m f s = resume f (m s)

abbrev pub ◌>>◌ : {O B : Type 0} → Action O (Unit {0}) → Action O B → Action O B
m >> k = m >>= λ _. k

module _ {O : Type 0} where
  -- `if (!test) GUM_RETURN_WITH_ERROR (e, …)`
  unfoldable pub require : Bool → Error → Action O (Unit {0})
  require test e s = (if test then ok tt else err e, s)

  unfoldable pub set_self : (O → O) → Action O (Unit {0})
  set_self f s = (ok tt, record s { self = f s.self })

  unfoldable pub when : Bool → Action O (Unit {0}) → Action O (Unit {0})
  when test m s = elim test [ true ↦ m s | false ↦ (ok tt, s) ]

-- Opens the combinators above where it is named on an `unfolding` line.
unfoldable pub combinators : Unit {0}
unfolding pure fail gets lift ◌>>=◌ require set_self when
combinators = tt

abbrev pub ticked : World → World
ticked w = record w { calls = suc w.calls }

module _ (os : Os) {O : Type 0} where
  -- `if (!gum_lock_pwdf_lock ()) GUM_RETURN_WITH_ERROR (GUM_ERROR_DB_ALREADY_LOCKED, …)`
  unfoldable pub lock_db : Action O (Unit {0})
  lock_db s =
      let w = s.world in
      let (locked, l) = pwdf_lock (os.lckpwdf_ok w.calls) w.lock in
      (
        if locked then ok tt else err db_already_locked,
        record s { world = record w { lock = l; calls = suc w.calls } },
      )

  -- `gum_lock_pwdf_unlock ();`, whose result no caller reads.
  unfoldable pub unlock_db : Action O (Unit {0})
  unlock_db s =
      let w = s.world in
      let (_, l) = pwdf_unlock (os.ulckpwdf_ok w.calls) w.lock in
      (ok tt, record s { world = record w { lock = l; calls = suc w.calls } })

  -- `if (!m) { gum_lock_pwdf_unlock (); return FALSE; }`
  unfoldable pub or_unlock : {A : Type 0} → Action O A → Action O A
  or_unlock m s =
      let (r, s') = m s in elim r [ ok a ↦ (ok a, s') | err e ↦ (err e, (unlock_db s').1) ]

  -- `gum_file_update` on each of the databases.
  unfoldable pub update_group_file : UpdateCb Group → Action O (Unit {0})
  update_group_file cb s =
      let w = s.world in
      let (r, f) = update (os.group_io w.calls) (some cb) w.group in
      (r, record s { world = record w { group = f; calls = suc w.calls } })

  unfoldable pub update_gshadow_file : UpdateCb Sgrp → Action O (Unit {0})
  update_gshadow_file cb s =
      let w = s.world in
      let (r, f) = update (os.gshadow_io w.calls) (some cb) w.gshadow in
      (r, record s { world = record w { gshadow = f; calls = suc w.calls } })

  unfoldable pub update_passwd_file : UpdateCb Passwd → Action O (Unit {0})
  update_passwd_file cb s =
      let w = s.world in
      let (r, f) = update (os.passwd_io w.calls) (some cb) w.passwd in
      (r, record s { world = record w { passwd = f; calls = suc w.calls } })

  unfoldable pub update_shadow_file : UpdateCb Spwd → Action O (Unit {0})
  update_shadow_file cb s =
      let w = s.world in
      let (r, f) = update (os.shadow_io w.calls) (some cb) w.shadow in
      (r, record s { world = record w { shadow = f; calls = suc w.calls } })

module _ {O : Type 0} where
  unfoldable pub run_scripts : ScriptRun → Action O (Unit {0})
  run_scripts run s =
      let w = s.world in (ok tt, record s { world = record w { scripts = run ∷ w.scripts } })

-- An action on an object of the other kind, `o`, which is dropped afterwards.
unfoldable pub on_object : {O P A : Type 0} → P → Action P A → Action O A
on_object o m s =
    let (r, t) = m (record { self = o; world = s.world }) in (r, record s { world = t.world })

-- `m` with its result left unread.
unfoldable pub ignoring : {O A : Type 0} → Action O A → Action O (Unit {0})
ignoring m s = (ok tt, (m s).1)

-- `g_file_test (shadow_file, G_FILE_TEST_EXISTS)`
abbrev pub exists : {A : Type 0} → DbFiles A → Bool
exists f = elim f.source [ none ↦ false | some _ ↦ true ]
