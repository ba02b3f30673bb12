-- ===== src/Validate/Entry.antt =====
-- The two checks on an entry of the database files, by `strpbrk` and by a regular expression.
use platform_upstream_gumd.Common.{
  ◌≢◌, true, false, ℕ, ◌<◌, ◌≡◌, refl, Bool, not, ◌||◌, Option, none, some, [], ◌∷◌, Str, ◌==◌,
  if◌then◌else◌, All, holds_below, holds_below_at, arith,
}
use platform_upstream_gumd.Error.{ok}
use platform_upstream_gumd.StringUtils.{Free}
use platform_upstream_gumd.Validate.{
  matches, is_cntrl, db_entry_pattern, occurs, strpbrk, invalid_in_string, validate_db_string_entry,
  validate_db_string_entry_regx,
}

-- The bytes of a C string.
abbrev pub IsByte : ℕ → Type 0
IsByte b = (0 < b) × (b < 256)

-- The string, if it is not NULL, is a C string.
abbrev pub IsCString : Option Str → Type 0
IsCString none = Unit
IsCString (some s) = All IsByte s

abbrev forbidden : ℕ → Bool
forbidden c = c == 0x2c || c == 0x3a || is_cntrl c

-- NUL apart, the list of bytes and the pattern's set are the same.
abbrev agree : ℕ → Bool
agree c = c == 0 || (if occurs c invalid_in_string then forbidden c else not (forbidden c))

agree_table : holds_below agree 256 ≡ true
unfolding holds_below occurs invalid_in_string
agree_table = refl

occurs-forbidden : (c : ℕ) → IsByte c → occurs c invalid_in_string ≡ forbidden c
occurs-forbidden c h = ground (arith, holds_below_at agree 256 c h.1 agree_table)

matches-strpbrk :
    (s : Str) → All IsByte s → matches db_entry_pattern s ≡ not (strpbrk s invalid_in_string)
unfolding matches strpbrk
matches-strpbrk [] h = refl
matches-strpbrk (c ∷ s) h = rw (occurs-forbidden c h.0, matches-strpbrk s h.1) (ground arith)

-- On every C string, and on NULL, the search for forbidden bytes and the regular expression give the
-- same verdict and the same error.
validate_db_string_entry-regx :
    (s : Option Str) → IsCString s → validate_db_string_entry s ≡ validate_db_string_entry_regx s
unfolding validate_db_string_entry validate_db_string_entry_regx
validate_db_string_entry-regx none h = refl
validate_db_string_entry-regx (some []) h = ground (arith, matches-strpbrk [])
validate_db_string_entry-regx (some (c ∷ s)) h = ground (arith, matches-strpbrk (c ∷ s) h)

comma_listed : occurs b',' invalid_in_string ≡ true
unfolding occurs invalid_in_string
comma_listed = refl

strpbrk-Free : (s : Str) → strpbrk s invalid_in_string ≡ false → Free b',' s
unfolding strpbrk
strpbrk-Free [] h = tt
strpbrk-Free (c ∷ s) h = (not_comma, strpbrk-Free s (ground arith))
  where
    not_comma : c ≢ b','
    not_comma e = let listed : occurs c invalid_in_string ≡ true = rw e comma_listed in ground arith

-- An accepted entry holds no comma, which separates the fields of gecos and the members of groups.
pub validate_db_string_entry-Free :
    (s : Str) → validate_db_string_entry (some s) ≡ ok tt → Free b',' s
unfolding validate_db_string_entry
validate_db_string_entry-Free [] h = tt
validate_db_string_entry-Free (c ∷ s) h = strpbrk-Free (c ∷ s) (ground arith)
