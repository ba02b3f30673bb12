-- ===== src/UserTypes.antt =====
-- src/common/gum-user-types.c: the types of users, one bit each, and their names.
pub mod Names
use Prim.Native.Nat.{bit_and, bit_or}
use platform_upstream_gumd.Common.{
  ℕ, zero, suc, ◌/◌, Bool, true, false, not, ◌||◌, Option, none, some, List, [], ◌∷◌, Str, codes,
  strcmp0_eq, leb, ◌==◌, if◌then◌else◌, length, get_elem?,
}

abbrev pub usertype_none : ℕ
usertype_none = 0x00

abbrev pub usertype_system : ℕ
usertype_system = 0x01

abbrev pub usertype_admin : ℕ
usertype_admin = 0x02

abbrev pub usertype_guest : ℕ
usertype_guest = 0x04

abbrev pub usertype_normal : ℕ
usertype_normal = 0x08

abbrev pub usertype_security : ℕ
usertype_security = 0x10

-- `GUM_USERTYPE_COUNT` and `GUM_USERTYPE_MAX_VALUE`
abbrev pub usertype_count : ℕ
usertype_count = 6

abbrev pub usertype_max_value : ℕ
usertype_max_value = 0x20

pub record UserTypeString : Type 0 where
  pub value : ℕ
  pub str : Str

unfoldable pub user_type_strings : List UserTypeString
user_type_strings =
    record { value = usertype_none; str = codes "none" }
    ∷ record { value = usertype_system; str = codes "system" }
    ∷ record { value = usertype_admin; str = codes "admin" }
    ∷ record { value = usertype_guest; str = codes "guest" }
    ∷ record { value = usertype_normal; str = codes "normal" }
    ∷ record { value = usertype_security; str = codes "security" }
    ∷ []

-- The loop `while (type)`. A shift makes a number smaller that is not 0, so the number itself is fuel
-- enough.
unfoldable pub count_shifts : ℕ → ℕ → ℕ
count_shifts zero type = 0
count_shifts (suc fuel) type =
    let rest = count_shifts fuel (type / 2) in if type == 0 then 0 else suc rest

-- `none` is -1.
unfoldable pub user_type_strings_index : ℕ → Option ℕ
unfolding count_shifts
user_type_strings_index type =
    if leb usertype_max_value type then none else some (count_shifts type type)

unfoldable pub type_to_string : ℕ → Option Str
unfolding user_type_strings_index user_type_strings
type_to_string type = elim (user_type_strings_index type) [
  | none ↦ none
  | some ind ↦
      if ind == 0 || leb usertype_count ind
      then none
      else elim (get_elem? user_type_strings ind) [ none ↦ none | some t ↦ some t.str ]
]

-- The loop of `gum_user_type_from_string`.
unfoldable pub value_of : List UserTypeString → Str → ℕ
value_of [] s = usertype_none
value_of (t ∷ ts) s =
    let rest = value_of ts s in if strcmp0_eq (some s) (some t.str) then t.value else rest

unfoldable pub type_from_string : Option Str → ℕ
unfolding value_of user_type_strings
type_from_string none = usertype_none
type_from_string (some []) = usertype_none
type_from_string (some (c ∷ s)) = value_of user_type_strings (c ∷ s)

-- The loop of `gum_user_type_to_strv`.
unfoldable pub strings_in : List UserTypeString → ℕ → List Str
strings_in [] types = []
strings_in (t ∷ ts) types =
    let rest = strings_in ts types in
    if not (bit_and types t.value == 0) then t.str ∷ rest else rest

unfoldable pub type_to_strv : ℕ → List Str
unfolding strings_in user_type_strings
type_to_strv types = strings_in user_type_strings types

-- The loop of `gum_user_type_from_strv`, from the value of `res` on.
unfoldable pub or_all : ℕ → List Str → ℕ
unfolding type_from_string
or_all res [] = res
or_all res (s ∷ strv) = or_all (bit_or res (type_from_string (some s))) strv

unfoldable pub type_from_strv : Option (List Str) → ℕ
unfolding or_all
type_from_strv none = usertype_none
type_from_strv (some strv) = or_all usertype_none strv
