-- ===== src/Scripts.antt =====
-- src/common/gum-utils.c: running the scripts of a directory, and src/common/gum-config.c: the path of the
-- directory below the system's root. GLib's paths, directories, sequences and processes are
-- parameters.
pub mod Listed
pub mod Spawned
pub mod Ran
use platform_upstream_gumd.Common.{
  ℕ, Bool, true, false, not, ◌&&◌, ◌||◌, Option, none, some, List, [], ◌∷◌, ◌++◌, Str, codes,
  str_eq, ltb, ◌==◌, if◌then◌else◌,
}

-- The arguments of a process, the path of the script being the first.
abbrev pub Argv : Type 0
Argv = List Str

-- `S_ISDIR` of what `lstat` finds.
pub data Entry : Type 0 where
  directory other : Entry

-- `names` is what `g_dir_read_name` gives on a directory that can be opened. `present` is whether a
-- script is there after the commands that have been spawned.
pub record Glib : Type 0 where
  pub build_filename : Str → Str → Str
  pub exists : Str → Bool
  pub is_dir : Str → Bool
  pub names : Str → Option (List Str)
  pub lstat : Str → Option Entry
  pub insert_sorted : (Str → Str → Bool) → Str → List Str → List Str
  pub present : List Argv → Str → Bool
  -- `%u`
  pub unsigned : ℕ → Str

-- `strcmp (s, t) <= 0`
unfoldable pub at_most : Str → Str → Bool
at_most [] t = true
at_most (a ∷ s) [] = false
at_most (a ∷ s) (b ∷ t) = ltb a b || (a == b && at_most s t)

-- The paths in the sequence are not NULL, and the sign is all that the sequence looks at.
unfoldable pub script_sort : Str → Str → Bool
unfolding at_most
script_sort a b = at_most a b

unfoldable pub prepend_sysroot : Glib → Option Str → Str → Str
prepend_sysroot glib none string = string
prepend_sysroot glib (some []) string = string
prepend_sysroot glib (some (c ∷ s)) string = glib.build_filename (c ∷ s) string

unfoldable pub is_dots : Str → Bool
is_dots name = str_eq name (codes ".") || str_eq name (codes "..")

module _ (glib : Glib) where
  -- What `lstat` gives, for the script's path in the sequence.
  unfoldable pub listed_entry : Str → List Str → Option Entry → Option (List Str)
  unfolding script_sort
  listed_entry path scripts none = none
  listed_entry path scripts (some directory) = some scripts
  listed_entry path scripts (some other) = some (glib.insert_sorted script_sort path scripts)

  unfoldable pub read_entry : Str → Str → List Str → Option (List Str)
  unfolding is_dots listed_entry
  read_entry script_dir name scripts =
      let path = glib.build_filename script_dir name in
      if is_dots name then some scripts else listed_entry path scripts (glib.lstat path)

  -- The first loop.
  unfoldable pub read_entries : Str → List Str → List Str → Option (List Str)
  unfolding read_entry
  read_entries script_dir [] scripts = some scripts
  read_entries script_dir (name ∷ rest) scripts = elim (read_entry script_dir name scripts) [
    | none ↦ none
    | some more ↦ read_entries script_dir rest more
  ]

  -- The commands that have been spawned, in order; how they end is not looked at.
  unfoldable pub run_script : Argv → List Argv → List Argv
  run_script [] ran = ran
  run_script (script ∷ args) ran =
      if glib.present ran script then ran ++ ((script ∷ args) ∷ []) else ran

  -- The second loop, which sets `args[0]`.
  unfoldable pub run_each : Argv → List Str → List Argv → List Argv
  unfolding run_script
  run_each args [] ran = ran
  run_each args (script ∷ rest) ran = run_each args rest (run_script (script ∷ args) ran)

  unfoldable pub run_listed : Argv → Option (List Str) → Bool × List Argv
  unfolding run_each
  run_listed args none = (false, [])
  run_listed args (some scripts) = (true, run_each args scripts [])

  unfoldable pub run_opened : Argv → Str → Option (List Str) → Bool × List Argv
  unfolding read_entries run_listed
  run_opened args script_dir none = (false, [])
  run_opened args script_dir (some names) = run_listed args (read_entries script_dir names [])

  -- Here `args` is what follows `args[0]`, up to the first NULL.
  unfoldable pub run_scripts_of : Option Str → Str → Argv → Bool × List Argv
  unfolding prepend_sysroot run_opened
  run_scripts_of sysroot sdir args =
      let script_dir = prepend_sysroot glib sysroot sdir in
      if not (glib.exists script_dir) || not (glib.is_dir script_dir)
      then (false, [])
      else run_opened args script_dir (glib.names script_dir)

  -- A NULL is the end of the arguments.
  unfoldable pub last_arg : Option Str → Argv
  last_arg none = []
  last_arg (some arg) = arg ∷ []

  unfoldable pub run_user_scripts :
      Option Str → Str → Option Str → ℕ → ℕ → Option Str → Option Str → Bool × List Argv
  unfolding run_scripts_of last_arg
  run_user_scripts sysroot script_dir (some username) uid gid (some homedir) usertype =
      run_scripts_of sysroot script_dir
        (username ∷ glib.unsigned uid ∷ glib.unsigned gid ∷ homedir ∷ last_arg usertype)
  run_user_scripts sysroot script_dir _ uid gid _ usertype = (false, [])

  unfoldable pub run_group_scripts : Option Str → Str → Option Str → ℕ → ℕ → Bool × List Argv
  unfolding run_scripts_of
  run_group_scripts sysroot script_dir (some groupname) gid uid =
      run_scripts_of sysroot script_dir (groupname ∷ glib.unsigned gid ∷ glib.unsigned uid ∷ [])
  run_group_scripts sysroot script_dir none gid uid = (false, [])
