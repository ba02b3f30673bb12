-- ===== src/Configuration/Found.antt =====
-- src/common/gum-config.c: what a key of the configuration can have for a value.
use platform_upstream_gumd.Common.{
  ℕ, ◌≤◌, Bool, true, false, not, ◌&&◌, Option, none, some, List, [], ◌∷◌, ◌++◌, Str, codes, ◌≡◌,
  sym, ap, ◌∙◌, inl, inr, str_eq, str_eq_iff, leb, Bool-cases, All, arith,
}
use platform_upstream_gumd.Common.Int.{ℤ}
use platform_upstream_gumd.Configuration.Keys.{one_of, int_keys, uint_keys}
use platform_upstream_gumd.Configuration.{
  Value, int, uint, string, GumConfig, KeyFile, Lib, Build, uint_max, fits_int, lookup,
  convert_strtol, convert_strtoul, set_string, set_checked_int, set_checked_uint, load_value,
  load_keys, load_groups, load_settings, check_config_file, load_found, load_config, defaults,
  set_default, set_defaults, config_new,
}

abbrev pub has_kind : Str × Value → Bool
has_kind (key, int n) = one_of int_keys key && fits_int n
has_kind (key, uint n) = not (one_of int_keys key) && one_of uint_keys key && leb n uint_max
has_kind (key, string s) = not (one_of int_keys key) && not (one_of uint_keys key)

-- What the table has for a key: nothing, or a value of the type that the key is for, an integer
-- being one of `gint` and `guint`.
pub data Found (key : Str) : Option Value → Type 0 where
  no_value : Found key none
  int_found : {n : ℤ} → one_of int_keys key ≡ true → fits_int n ≡ true → Found key (some (int n))
  uint_found : {n : ℕ} → one_of uint_keys key ≡ true → n ≤ uint_max → Found key (some (uint n))
  string_found :
      {s : Str}
      → one_of int_keys key ≡ false
      → one_of uint_keys key ≡ false
      → Found key (some (string s))

has_kind-Found : (key : Str) (v : Value) → has_kind (key, v) ≡ true → Found key (some v)
has_kind-Found key (int n) e = int_found (ground (arith, e)) (ground (arith, e))
has_kind-Found key (uint n) e = uint_found (ground (arith, e)) (ground (arith, e))
has_kind-Found key (string s) e = string_found (ground (arith, e)) (ground (arith, e))

abbrev Kinds : List (Str × Value) → Type 0
Kinds = All (λ e. has_kind e ≡ true)

Kinds-Found : (t : List (Str × Value)) (key : Str) → Kinds t → Found key (lookup t key)
unfolding lookup
Kinds-Found [] key h = no_value
Kinds-Found ((k, v) ∷ rest) key (kind, h) = elim (Bool-cases (str_eq k key)) [
  | inl e ↦
      let same = (str_eq_iff k key).0 e in
      rw e (has_kind-Found key v (ap (λ x. has_kind (x, v)) (sym same) ∙ kind))
  | inr e ↦ rw e (Kinds-Found rest key h)
]

abbrev Typed : GumConfig → Type 0
Typed c = Kinds c.config_table

set_checked_int-Typed :
    (key : Str) (v : Option ℤ) (c : GumConfig)
    → one_of int_keys key ≡ true
    → Typed c
    → Typed (set_checked_int key v c)
set_checked_int-Typed key none c k t = t
set_checked_int-Typed key (some cv) c k t = elim (Bool-cases (fits_int cv)) [
  | inl f ↦ rw f (ground (arith, k, f), t)
  | inr f ↦ rw f t
]

set_checked_uint-Typed :
    (key : Str) (v : Option ℕ) (c : GumConfig)
    → one_of int_keys key ≡ false
    → one_of uint_keys key ≡ true
    → Typed c
    → Typed (set_checked_uint key v c)
set_checked_uint-Typed key none c i k t = t
set_checked_uint-Typed key (some cv) c i k t = elim (Bool-cases (leb cv uint_max)) [
  | inl f ↦ rw f (simp (i, k, f), t)
  | inr f ↦ rw f t
]

module _ (lib : Lib) where
  load_value-Typed :
      (key value : Str) (c : GumConfig) → Typed c → Typed (load_value lib key value c)
  unfolding load_value set_string
  load_value-Typed key value c t = elim (Bool-cases (one_of int_keys key)) [
    | inl i ↦ rw i (set_checked_int-Typed key (convert_strtol lib value) c i t)
    | inr i ↦ elim (Bool-cases (one_of uint_keys key)) [
      | inl u ↦ rw (i, u) (set_checked_uint-Typed key (convert_strtoul lib value) c i u t)
      | inr u ↦ rw (i, u) (simp (i, u), t)
    ]
  ]

  load_keys-Typed :
      (group : Str) (keys : List (Str × Str)) (c : GumConfig)
      → Typed c
      → Typed (load_keys lib group keys c)
  unfolding load_keys
  load_keys-Typed group [] c t = t
  load_keys-Typed group ((key, value) ∷ rest) c t =
      load_keys-Typed group rest _ (load_value-Typed (group ++ 47 ∷ key) value c t)

  load_groups-Typed :
      (settings : KeyFile) (c : GumConfig) → Typed c → Typed (load_groups lib settings c)
  unfolding load_groups
  load_groups-Typed [] c t = t
  load_groups-Typed ((group, none) ∷ rest) c t = load_groups-Typed rest c t
  load_groups-Typed ((group, some keys) ∷ rest) c t =
      load_groups-Typed rest _ (load_keys-Typed group keys c t)

  load_settings-Typed :
      (o : Option KeyFile) (c : GumConfig) → Typed c → Typed (load_settings lib o c).1
  unfolding load_settings
  load_settings-Typed none c t = t
  load_settings-Typed (some settings) c t = load_groups-Typed settings c t

  load_found-Typed : (o : Option Str) (c : GumConfig) → Typed c → Typed (load_found lib o c).1
  unfolding load_found
  load_found-Typed none c t = t
  load_found-Typed (some path) c t = load_settings-Typed (lib.load_from_file path) c t

  set_default-Typed :
      (d : Str × Value) (c : GumConfig) → has_kind d ≡ true → Typed c → Typed (set_default lib d c)
  unfolding set_default set_string
  set_default-Typed (key, int n) c k t = (k, t)
  set_default-Typed (key, uint n) c k t = (k, t)
  set_default-Typed (key, string s) c k t = (k, t)

  set_defaults-Typed :
      (ds : List (Str × Value)) (c : GumConfig) → Kinds ds → Typed c → Typed (set_defaults lib ds c)
  unfolding set_defaults
  set_defaults-Typed [] c h t = t
  set_defaults-Typed (d ∷ rest) c (k, h) t = set_defaults-Typed rest _ h (set_default-Typed d c k t)

  module _ (b : Build) (umask_fits : b.gum_umask ≤ uint_max) where
    defaults-Kinds : Kinds (defaults lib b)
    unfolding one_of fits_int str_eq
    defaults-Kinds = ground (arith, umask_fits)

    load_config-Typed : (c : GumConfig) → Typed c → Typed (load_config lib b c).1
    unfolding load_config
    load_config-Typed c t =
        load_found-Typed (check_config_file lib (b.sysconf_dir ++ codes "/gumd") c.sysroot) c t

    config_new-Typed : (root : Option Str) → Typed (config_new lib b none root)
    unfolding config_new
    config_new-Typed root =
        let fresh : GumConfig = record { sysroot = root; config_table = [] } in
        let ready = set_defaults-Typed (defaults lib b) fresh defaults-Kinds tt in
        load_config-Typed (set_defaults lib (defaults lib b) fresh) ready

    -- In a new configuration, whatever the file has for a key, and whether or not it can be read,
    -- what is found under the key is nothing or a value of the type that the key is for, an integer
    -- being in the bounds of that type; the umask that the build defines is one of `guint`.
    pub config_new-Found :
        (root : Option Str) (key : Str)
        → Found key (lookup (config_new lib b none root).config_table key)
    config_new-Found root key =
        Kinds-Found (config_new lib b none root).config_table key (config_new-Typed root)
