-- ===== src/StringUtils.antt =====
-- src/common/gum-string-utils.c: concatenated strings with a separator, and NULL-ended vectors of
-- strings. A vector is a list, and a vector that may be NULL an `Option` of one. `g_strsplit` and
-- `g_strjoinv` are GLib's: the interface `Strv` holds them with what their documentation says.
pub mod Members
pub mod Fields
use platform_upstream_gumd.Common.{
  ℕ, zero, suc, ◌+◌, ◌-◌, ◌≡◌, ◌≢◌, refl, Bool, true, false, not, ◌&&◌, ◌||◌, Option, none, some,
  List, [], ◌∷◌, ◌++◌, Str, strcmp0_eq, ltb, leb, ◌==◌, if◌then◌else◌, length, get_elem?, All,
}

-- The byte does not occur in the text.
abbrev pub Free : ℕ → Str → Type 0
Free c s = All (λ b. b ≢ c) s

-- GLib's splitting and joining at a separator of one byte, which is the only kind in use.
pub record Strv : Type 0 where
  pub split : ℕ → Str → List Str
  pub join : ℕ → List Str → Str
  -- Two or more pieces that hold no separator come back as they were joined. (One empty piece does
  -- not: it is joined to the empty string, which is split into no pieces.)
  pub split-join :
      (sep : ℕ) (p q : Str) (ps : List Str)
      → All (Free sep) (p ∷ q ∷ ps)
      → split sep (join sep (p ∷ q ∷ ps)) ≡ p ∷ q ∷ ps
  -- The pieces of any string hold no separator.
  pub split-Free : (sep : ℕ) (s : Str) → All (Free sep) (split sep s)

-- The loop of `gum_string_utils_search_stringv`.
pub search_from : List Str → Str → Bool
search_from [] t = false
search_from (s ∷ rest) t =
    let found = search_from rest t in if strcmp0_eq (some t) (some s) then true else found

unfoldable pub search_stringv : Option (List Str) → Option Str → Bool
unfolding search_from
search_stringv none t = false
search_stringv (some v) none = false
search_stringv (some v) (some t) = search_from v t

-- The copying loop of `gum_string_utils_delete_string`.
unfoldable pub copy_others : List Str → Option Str → List Str
copy_others [] t = []
copy_others (s ∷ rest) t =
    if not (strcmp0_eq (some s) t) then s ∷ copy_others rest t else copy_others rest t

abbrev pub strings_of : Option (List Str) → List Str
strings_of none = []
strings_of (some v) = v

-- NULL where the string is not in the vector.
unfoldable pub delete_string : Option (List Str) → Option Str → Option (List Str)
unfolding search_stringv copy_others
delete_string src t =
    if not (search_stringv src t) then none else some (copy_others (strings_of src) t)

-- `g_strdup (NULL)` is NULL, which ends the vector where it stands.
unfoldable pub append_string : Option (List Str) → Option Str → Option (List Str)
append_string src none = some (strings_of src)
append_string src (some t) = some (strings_of src ++ t ∷ [])

module _ (glib : Strv) where
  open glib use {split, join}

  unfoldable pub search_string : Option Str → Option ℕ → Option Str → Bool
  unfolding search_stringv
  search_string (some strings) (some sep) (some t) =
      search_stringv (some (split sep strings)) (some t)
  search_string _ _ _ = false

  unfoldable pub get_string : Option Str → Option ℕ → ℕ → Option Str
  get_string (some strings) (some sep) ind =
      let strv = split sep strings in if ltb ind (length strv) then get_elem? strv ind else none
  get_string _ _ ind = none

abbrev pub get_or_empty : List Str → ℕ → Str
get_or_empty v i = elim (get_elem? v i) [ none ↦ [] | some s ↦ s ]

-- The loop of `gum_string_utils_insert_string`: the strings from `dest_ind` on, `left` of them.
pub insert_loop : List Str → Str → ℕ → ℕ → ℕ → List Str
insert_loop src t str_ind dest_ind zero = []
insert_loop src t str_ind dest_ind (suc left) =
    (if dest_ind == str_ind
      then t
      else if ltb dest_ind (length src)
      then get_or_empty src dest_ind
      else [])
    ∷ insert_loop src t str_ind (suc dest_ind) left

module _ (glib : Strv) where
  open glib use {split, join}

  abbrev pub source_strings : Option Str → ℕ → List Str
  source_strings none sep = []
  source_strings (some strings) sep = split sep strings

  unfoldable pub insert_string : Option Str → Option ℕ → Option Str → ℕ → ℕ → Option Str
  unfolding insert_loop
  insert_string strings (some sep) (some t) str_ind total =
      if leb total str_ind
      then none
      else some (join sep (insert_loop (source_strings strings sep) t str_ind 0 total))
  insert_string strings _ _ str_ind total = none
