-- ===== src/UserTypes/Names.antt =====
-- Types of users that are written as names and read again.
use platform_upstream_gumd.Common.{
  ℕ, ◌*◌, ◌≤◌, ◌<◌, ◌≡◌, refl, Bool, true, ◌&&◌, ◌||◌, none, some, ltb, leb, ◌==◌, ==_iff,
  holds_below, holds_below_at, strcmp0_eq, arith,
}
use platform_upstream_gumd.UserTypes.{
  usertype_max_value, user_type_strings, count_shifts, user_type_strings_index, type_to_string,
  value_of, type_from_string, strings_in, type_to_strv, or_all, type_from_strv,
}

strv_table :
    holds_below (λ t. type_from_strv (some (type_to_strv t)) == t) usertype_max_value ≡ true
unfolding holds_below type_from_strv type_to_strv strings_in or_all type_from_string value_of
    user_type_strings strcmp0_eq
strv_table = refl

-- Every combination of types is read again from the names that it is written as.
from_strv-to_strv :
    (types : ℕ) → types < usertype_max_value → type_from_strv (some (type_to_strv types)) ≡ types
from_strv-to_strv types h = (==_iff _ types).0 (
    holds_below_at (λ t. type_from_strv (some (type_to_strv t)) == t) usertype_max_value types h
      strv_table)

-- The name of a number is that of its highest bit.
abbrev highest : ℕ → Bool
highest t =
    let r = type_from_string (type_to_string t) in t == 0 && r == 0 || leb r t && ltb t (2 * r)

string_table : holds_below highest usertype_max_value ≡ true
unfolding holds_below type_to_string count_shifts user_type_strings_index type_from_string value_of
    user_type_strings strcmp0_eq
string_table = refl

-- The name of a combination of types is that of the one with the greatest number: `type` is at
-- least the number that is read from its name, and less than twice that.
from_string-to_string :
    (type : ℕ)
    → 0 < type
    → type < usertype_max_value
    → (type_from_string (type_to_string type) ≤ type)
      × (type < 2 * type_from_string (type_to_string type))
from_string-to_string type pos h =
    let e = holds_below_at highest usertype_max_value type h string_table in
    (ground arith, ground arith)

-- A number that is no combination of types has no name.
pub to_string_none : (type : ℕ) → usertype_max_value ≤ type → type_to_string type ≡ none
unfolding type_to_string user_type_strings_index
to_string_none type h = ground arith
