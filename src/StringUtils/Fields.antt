-- ===== src/StringUtils/Fields.antt =====
-- `gum_string_utils_insert_string` and `gum_string_utils_get_string` as the write and the read of
-- a numbered field, for any GLib that keeps to the interface `Strv`.
use platform_upstream_gumd.Common.{
  ℕ, zero, suc, ◌+◌, ◌<◌, ◌≡◌, refl, false, Option, none, some, List, [], ◌∷◌, Str, ltb, leb, ◌==◌,
  if◌then◌else◌, length, get_elem?, All, arith, if_both,
}
use platform_upstream_gumd.StringUtils.{
  Free, Strv, get_or_empty, get_string, insert_loop, source_strings, insert_string,
}

length-insert_loop :
    (src : List Str) (t : Str) (i d left : ℕ) → length (insert_loop src t i d left) ≡ left
unfolding insert_loop
length-insert_loop src t i d zero = refl
length-insert_loop src t i d (suc left) = omega (arith, length-insert_loop src t i (suc d) left)

-- What the loop puts in place `j`.
abbrev field_at : List Str → Str → ℕ → ℕ → Str
field_at src t i j = if j == i then t else get_or_empty src j

pub get_or_empty_past : (v : List Str) (j : ℕ) → ltb j (length v) ≡ false → get_or_empty v j ≡ []
get_or_empty_past [] j h = refl
get_or_empty_past (s ∷ v) zero h = absurd (ground arith)
get_or_empty_past (s ∷ v) (suc j) h = get_or_empty_past v j (ground arith)

get_elem?-insert_loop :
    (src : List Str) (t : Str) (i d left k : ℕ)
    → k < left
    → get_elem? (insert_loop src t i d left) k ≡ some (field_at src t i (d + k))
unfolding insert_loop
get_elem?-insert_loop src t i d zero k h = elim h [ ]
get_elem?-insert_loop src t i d (suc left) zero h =
    let e : d + 0 ≡ d = omega arith in rw e (ground (arith, get_or_empty_past src d))
get_elem?-insert_loop src t i d (suc left) (suc k) h =
    let e : d + suc k ≡ suc d + k = omega arith in
    rw e (get_elem?-insert_loop src t i (suc d) left k (omega arith))

module _ (sep : ℕ) where
  get_or_empty-Free : (v : List Str) (j : ℕ) → All (Free sep) v → Free sep (get_or_empty v j)
  get_or_empty-Free [] j h = tt
  get_or_empty-Free (s ∷ v) zero h = h.0
  get_or_empty-Free (s ∷ v) (suc j) h = get_or_empty-Free v j h.1

  insert_loop-Free :
      (src : List Str) (t : Str) (i d left : ℕ)
      → All (Free sep) src
      → Free sep t
      → All (Free sep) (insert_loop src t i d left)
  unfolding insert_loop
  insert_loop-Free src t i d zero hs ht = tt
  insert_loop-Free src t i d (suc left) hs ht = (
    if_both (Free sep) (d == i) ht (if_both (Free sep) (ltb d (length src)) old tt),
    insert_loop-Free src t i (suc d) left hs ht,
  )
    where
      old : Free sep (get_or_empty src d)
      old = get_or_empty-Free src d hs

module _ (glib : Strv) where
  open glib use {split, join, split-join, split-Free}

  source_strings-Free :
      (strings : Option Str) (sep : ℕ) → All (Free sep) (source_strings glib strings sep)
  source_strings-Free none sep = tt
  source_strings-Free (some s) sep = split-Free sep s

  split-join_list :
      (sep : ℕ) (v : List Str) → All (Free sep) v → 1 < length v → split sep (join sep v) ≡ v
  split-join_list sep [] h pos = elim pos [ ]
  split-join_list sep (p ∷ []) h pos = absurd (omega (arith, pos))
  split-join_list sep (p ∷ q ∷ ps) h pos = split-join sep p q ps h

  -- After `insert_string` has put `t`, a text with no separator, in place `i` of two or more places,
  -- `get_string` reads `t` there, in every other place below `total` the old string or an empty one
  -- where there was none, and NULL from `total` on.
  pub get_string-insert_string :
      (strings : Option Str) (sep : ℕ) (t : Str) (i total j : ℕ)
      → Free sep t
      → i < total
      → 1 < total
      → get_string glib (insert_string glib strings (some sep) (some t) i total) (some sep) j ≡ (
          if ltb j total
          then some (if j == i then t else get_or_empty (source_strings glib strings sep) j)
          else none)
  unfolding get_string insert_string
  get_string-insert_string strings sep t i total j free h two =
      let v = insert_loop (source_strings glib strings sep) t i 0 total in
      let len : length v ≡ total = length-insert_loop _ t i 0 total in
      let back : split sep (join sep v) ≡ v =
        split-join_list sep v
          (insert_loop-Free sep _ t i 0 total (source_strings-Free strings sep) free)
          (omega arith) in
      let fits : leb total i ≡ false = ground arith in
      rw (fits, back, len)
        (ground (arith, get_elem?-insert_loop (source_strings glib strings sep) t i 0 total j))
