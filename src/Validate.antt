-- ===== src/Validate.antt =====
-- src/common/gum-validate.c and include/gum/common/gum-validate.h: the checks on names and on entries
-- of the database files. `regexec` is modelled for the three kinds of piece that the two patterns
-- are made of, over bytes, as in the C locale. The MD5 sum is GLib's, a parameter.
pub mod Name
pub mod Entry
use platform_upstream_gumd.Common.{
  ℕ, suc, ◌<◌, ◌≤◌, ◌≡◌, Bool, true, false, not, ◌&&◌, ◌||◌, Option, none, some, List, [], ◌∷◌, Str,
  ltb, leb, ◌==◌, if◌then◌else◌, length,
}
use platform_upstream_gumd.Error.{
  Result, ok, err, require, succeeds, ◌>>◌, invalid_name, invalid_str, invalid_secret,
}

-- `UT_NAMESIZE` of <utmp.h>
abbrev pub ut_namesize : ℕ
ut_namesize = 32

-- A piece of a regular expression over a set of bytes: `[…]`, `[…]*`, `[…]\?`.
pub data Piece : Type 0 where
  one many optional : (ℕ → Bool) → Piece

-- The pattern between `^` and `$` against the whole string.
unfoldable pub matches : List Piece → Str → Bool
matches [] [] = true
matches [] (c ∷ s) = false
matches (one p ∷ ps) [] = false
matches (one p ∷ ps) (c ∷ s) = p c && matches ps s
matches (many p ∷ ps) [] = matches ps []
matches (many p ∷ ps) (c ∷ s) = matches ps (c ∷ s) || p c && matches (many p ∷ ps) s
matches (optional p ∷ ps) [] = matches ps []
matches (optional p ∷ ps) (c ∷ s) = matches ps (c ∷ s) || p c && matches ps s

abbrev pub is_alpha : ℕ → Bool
is_alpha c = leb b'A' c && leb c b'Z' || leb b'a' c && leb c b'z'

abbrev pub is_digit : ℕ → Bool
is_digit c = leb b'0' c && leb c b'9'

-- `[:cntrl:]`
abbrev pub is_cntrl : ℕ → Bool
is_cntrl c = ltb c 32 || c == 127

unfoldable pub first_set : ℕ → Bool
first_set c = is_alpha c || c == b'_'

unfoldable pub middle_set : ℕ → Bool
middle_set c = is_alpha c || is_digit c || c == b'_' || c == b'.' || c == b'-'

unfoldable pub last_set : ℕ → Bool
last_set c = middle_set c || c == b'$'

-- `GUM_NAME_PATTERN`
abbrev pub name_pattern : List Piece
name_pattern = one first_set ∷ many middle_set ∷ optional last_set ∷ []

-- `GUM_DB_ENTRY_PATTERN`
abbrev pub db_entry_pattern : List Piece
db_entry_pattern = many (λ c. not (c == 0x2c || c == 0x3a || is_cntrl c)) ∷ []

unfoldable pub validate_name : Option Str → Result (Unit {0})
validate_name none = err invalid_name
validate_name (some name) = do
  let len = length name
  require (not (len == 0 || ltb ut_namesize len)) invalid_name
  require (matches name_pattern name) invalid_name

-- `strpbrk (s, set) != NULL`
unfoldable pub occurs : ℕ → Str → Bool
occurs c [] = false
occurs c (d ∷ set) = c == d || occurs c set

unfoldable pub strpbrk : Str → Str → Bool
unfolding occurs
strpbrk [] set = false
strpbrk (c ∷ s) set = occurs c set || strpbrk s set

-- `invalid` of `gum_validate_db_string_entry`
unfoldable pub invalid_in_string : Str
invalid_in_string =
    0x01 ∷ 0x02 ∷ 0x03 ∷ 0x04 ∷ 0x05 ∷ 0x06 ∷ 0x07 ∷ 0x08 ∷ 0x09 ∷ 0x0a ∷ 0x0b ∷ 0x0c ∷ 0x0d ∷ 0x0e
    ∷ 0x0f ∷ 0x10 ∷ 0x11 ∷ 0x12 ∷ 0x13 ∷ 0x14 ∷ 0x15 ∷ 0x16 ∷ 0x17 ∷ 0x18 ∷ 0x19 ∷ 0x1a ∷ 0x1b
    ∷ 0x1c ∷ 0x1d ∷ 0x1e ∷ 0x1f ∷ 0x7f ∷ 0x2c ∷ 0x3a ∷ []

-- `invalid` of `gum_validate_db_secret_entry`
unfoldable pub invalid_in_secret : Str
invalid_in_secret =
    0x01 ∷ 0x02 ∷ 0x03 ∷ 0x04 ∷ 0x05 ∷ 0x06 ∷ 0x07 ∷ 0x08 ∷ 0x09 ∷ 0x0a ∷ 0x0b ∷ 0x0c ∷ 0x0d ∷ 0x0e
    ∷ 0x0f ∷ 0x10 ∷ 0x11 ∷ 0x12 ∷ 0x13 ∷ 0x14 ∷ 0x15 ∷ 0x16 ∷ 0x17 ∷ 0x18 ∷ 0x19 ∷ 0x1a ∷ 0x1b
    ∷ 0x1c ∷ 0x1d ∷ 0x1e ∷ 0x1f ∷ 0x7f ∷ 0x3a ∷ []

unfoldable pub validate_db_string_entry_regx : Option Str → Result (Unit {0})
validate_db_string_entry_regx none = err invalid_str
validate_db_string_entry_regx (some s) = require (matches db_entry_pattern s) invalid_str

unfoldable pub validate_db_string_entry : Option Str → Result (Unit {0})
unfolding strpbrk invalid_in_string
validate_db_string_entry none = err invalid_str
validate_db_string_entry (some s) =
    require (not (ltb 0 (length s) && strpbrk s invalid_in_string)) invalid_str

unfoldable pub validate_db_secret_entry : Option Str → Result (Unit {0})
unfolding strpbrk invalid_in_secret
validate_db_secret_entry none = err invalid_secret
validate_db_secret_entry (some s) = require (not (strpbrk s invalid_in_secret)) invalid_secret

-- `if (!g_ascii_isalpha (gen_name[0])) gen_name[0] = 'U';`
abbrev pub with_alpha_first : Str → Str
with_alpha_first [] = []
with_alpha_first (c ∷ s) = if is_alpha c then c ∷ s else b'U' ∷ s

-- `md5` gives the sum of a string in hexadecimal digits.
unfoldable pub generate_username : (Str → Str) → Option Str → Result Str
unfolding validate_name
generate_username md5 none = err invalid_name
generate_username md5 (some str) =
    if length str == 0
    then err invalid_name
    else let gen_name = with_alpha_first (md5 str) in validate_name (some gen_name) >> ok gen_name
