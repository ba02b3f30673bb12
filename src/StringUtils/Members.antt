-- ===== src/StringUtils/Members.antt =====
-- What `gum_string_utils_search_stringv`, `_append_string` and `_delete_string` do to a vector that
-- is read as a set of member names.
use platform_upstream_gumd.Common.{
  ◌≡◌, refl, true, false, not, ◌&&◌, ◌||◌, Option, none, some, List, [], ◌∷◌, ◌++◌, Str, strcmp0_eq,
  strcmp0_eq_iff, if◌then◌else◌, Bool-cases, inl, inr, arith,
}
use platform_upstream_gumd.StringUtils.{
  search_from, search_stringv, copy_others, delete_string, append_string,
}

search_from-append :
    (v : List Str) (t u : Str)
    → search_from (v ++ t ∷ []) u ≡ (search_from v u || strcmp0_eq (some u) (some t))
unfolding search_from
search_from-append [] t u = ground arith
search_from-append (s ∷ v) t u = ground (arith, search_from-append v t u)

pub search_from-copy_others :
    (v : List Str) (t u : Str)
    → search_from (copy_others v (some t)) u
      ≡ (search_from v u && not (strcmp0_eq (some u) (some t)))
unfolding search_from copy_others
search_from-copy_others [] t u = refl
search_from-copy_others (s ∷ v) t u = ground (
  arith,
  search_from-copy_others v t u,
  strcmp0_eq_iff (some s) (some t),
  strcmp0_eq_iff (some u) (some t),
  strcmp0_eq_iff (some u) (some s),
)

-- The names of a vector after a string was appended are the old ones and the new one.
pub search_stringv-append_string :
    (src : Option (List Str)) (t u : Str)
    → search_stringv (append_string src (some t)) (some u)
      ≡ (search_stringv src (some u) || strcmp0_eq (some u) (some t))
unfolding search_stringv append_string search_from
search_stringv-append_string none t u = ground arith
search_stringv-append_string (some v) t u = search_from-append v t u

-- Where `delete_string` gives a vector, its names are the old ones but the deleted one, of which no
-- copy is left.
pub search_stringv-delete_string :
    (src : Option (List Str)) (t u : Str)
    → search_stringv src (some t) ≡ true
    → search_stringv (delete_string src (some t)) (some u)
      ≡ (search_stringv src (some u) && not (strcmp0_eq (some u) (some t)))
unfolding search_stringv delete_string
search_stringv-delete_string none t u h = ground arith
search_stringv-delete_string (some v) t u h = rw h (search_from-copy_others v t u)

-- A string that is not there is not deleted: the result is NULL.
pub delete_string_absent :
    (src : Option (List Str)) (t : Option Str)
    → search_stringv src t ≡ false
    → delete_string src t ≡ none
unfolding delete_string
delete_string_absent src t h = rw h

pub copy_others_absent :
    (v : List Str) (t : Str) → search_from v t ≡ false → copy_others v (some t) ≡ v
unfolding search_from copy_others
copy_others_absent [] t h = refl
copy_others_absent (s ∷ v) t h = ground (
  arith,
  copy_others_absent v t,
  strcmp0_eq_iff (some t) (some s),
  strcmp0_eq_iff (some s) (some t),
)

copy_others-append :
    (v : List Str) (t : Str) → search_from v t ≡ false → copy_others (v ++ t ∷ []) (some t) ≡ v
unfolding search_from copy_others
copy_others-append [] t h = ground (arith, strcmp0_eq_iff (some t) (some t))
copy_others-append (s ∷ v) t h = ground (
  arith,
  copy_others-append v t,
  strcmp0_eq_iff (some t) (some s),
  strcmp0_eq_iff (some s) (some t),
)

search_from-append_self : (v : List Str) (t : Str) → search_from (v ++ t ∷ []) t ≡ true
search_from-append_self v t =
    ground (arith, search_from-append v t t, strcmp0_eq_iff (some t) (some t))

-- Deleting a string that has just been appended to a vector without it gives the vector back.
delete_string-append_string :
    (v : List Str) (t : Str)
    → search_stringv (some v) (some t) ≡ false
    → delete_string (append_string (some v) (some t)) (some t) ≡ some v
unfolding search_stringv delete_string append_string
delete_string-append_string v t h =
    rw (search_from-append_self v t) (ground (arith, copy_others-append v t))

-- After a deletion the string is not there, also not where the vector is written and read again.
pub delete_string_gone :
    (src : Option (List Str)) (t : Str)
    → (search_stringv
          (if search_stringv src (some t) then delete_string src (some t) else src)
          (some t)
        ≡ false)
      × (search_stringv (some []) (some t) ≡ false)
unfolding search_stringv search_from
delete_string_gone src t = (
  elim (Bool-cases (search_stringv src (some t))) [
    | inl h ↦
        rw h
          (ground (arith, search_stringv-delete_string src t t h, strcmp0_eq_iff (some t) (some t)))
    | inr h ↦ rw h h
  ],
  refl,
)
