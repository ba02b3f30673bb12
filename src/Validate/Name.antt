-- ===== src/Validate/Name.antt =====
-- The names that `gum_validate_name` accepts, and those that `gum_validate_generate_username` makes.
use platform_upstream_gumd.Common.{
  ℕ, ◌<◌, ◌≤◌, ◌≡◌, ◌≢◌, ◌↔◌, refl, true, inl, inr, ◌⊎◌, Option, none, some, [], ◌∷◌, Str, length,
  All, arith, Bool-cases,
}
use platform_upstream_gumd.Error.{ok, err, invalid_name}
use platform_upstream_gumd.Validate.{
  ut_namesize, many, optional, matches, first_set, middle_set, last_set, is_alpha, is_digit,
  name_pattern, validate_name, with_alpha_first, generate_username,
}

-- The bytes behind the first: letters, digits, `_`, `.` and `-`, and at the very end also `$`.
abbrev pub Tail : Str → Type 0
Tail [] = Unit
Tail (c ∷ []) = last_set c ≡ true
Tail (c ∷ d ∷ s) = (middle_set c ≡ true) × Tail (d ∷ s)

abbrev pub IsName : Option Str → Type 0
IsName none = ⊥
IsName (some []) = ⊥
IsName (some (c ∷ s)) = (first_set c ≡ true) × Tail s × (length (c ∷ s) ≤ ut_namesize)

middle→last : (c : ℕ) → middle_set c ≡ true → last_set c ≡ true
unfolding last_set
middle→last c h = rw h

matches-Tail : (s : Str) → (matches (many middle_set ∷ optional last_set ∷ []) s ≡ true) ↔ Tail s
unfolding matches
matches-Tail [] = ((λ _. tt), (λ _. refl))
matches-Tail (c ∷ []) = ground (arith, middle→last c)
matches-Tail (c ∷ d ∷ s) = ground (arith, matches-Tail (d ∷ s))

matches_name :
    (c : ℕ) (s : Str) → (matches name_pattern (c ∷ s) ≡ true) ↔ ((first_set c ≡ true) × Tail s)
unfolding matches
matches_name c s = ground (arith, matches-Tail s)

-- A name is accepted exactly when it has 1 to 32 bytes, begins with a letter or `_`, goes on with
-- letters, digits, `_`, `.` and `-`, and ends with one of these or with `$`.
pub validate_name_iff : (n : Option Str) → (validate_name n ≡ ok tt) ↔ IsName n
unfolding validate_name
validate_name_iff none = ground arith
validate_name_iff (some []) = ground arith
validate_name_iff (some (c ∷ s)) = ground (arith, matches_name c s)

-- Any other name is refused with the same error.
pub validate_name_total :
    (n : Option Str) → (validate_name n ≡ ok tt) ⊎ (validate_name n ≡ err invalid_name)
unfolding validate_name
validate_name_total none = ground arith
validate_name_total (some s) = ground arith

-- A byte that a name may hold is no control character, `:` or `,`.
abbrev pub IsPlain : ℕ → Type 0
IsPlain c = (31 < c) × (c ≢ 127) × (c ≢ b':') × (c ≢ b',')

first-IsPlain : (c : ℕ) → first_set c ≡ true → IsPlain c
unfolding first_set
first-IsPlain c h = ground arith

middle-IsPlain : (c : ℕ) → middle_set c ≡ true → IsPlain c
unfolding middle_set
middle-IsPlain c h = ground arith

last-IsPlain : (c : ℕ) → last_set c ≡ true → IsPlain c
unfolding last_set
last-IsPlain c h = ground (arith, middle-IsPlain c)

Tail-IsPlain : (s : Str) → Tail s → All IsPlain s
Tail-IsPlain [] h = tt
Tail-IsPlain (c ∷ []) h = (last-IsPlain c h, tt)
Tail-IsPlain (c ∷ d ∷ s) h = (middle-IsPlain c h.0, Tail-IsPlain (d ∷ s) h.1)

-- An accepted name holds no control character, `:` or `,`, which separate the lines, the fields and
-- the members of the database files.
validate_name-IsPlain : (s : Str) → validate_name (some s) ≡ ok tt → All IsPlain s
validate_name-IsPlain [] h = tt
validate_name-IsPlain (c ∷ s) h =
    let v = (validate_name_iff (some (c ∷ s))).0 h in (first-IsPlain c v.0, Tail-IsPlain s v.1)

abbrev pub IsHexDigit : ℕ → Type 0
IsHexDigit c = (is_digit c ≡ true) ⊎ ((b'a' ≤ c) × (c ≤ b'f'))

hex-middle : (c : ℕ) → IsHexDigit c → middle_set c ≡ true
unfolding middle_set
hex-middle c h = ground arith

hex-Tail : (s : Str) → All IsHexDigit s → Tail s
hex-Tail [] h = tt
hex-Tail (c ∷ []) h = middle→last c (hex-middle c h.0)
hex-Tail (c ∷ d ∷ s) h = (hex-middle c h.0, hex-Tail (d ∷ s) h.1)

first-alpha : (c : ℕ) → is_alpha c ≡ true → first_set c ≡ true
unfolding first_set
first-alpha c h = rw h

first-U : first_set b'U' ≡ true
unfolding first_set
first-U = refl

alpha_first-IsName :
    (s : Str) → length s ≡ 32 → All IsHexDigit s → IsName (some (with_alpha_first s))
alpha_first-IsName [] n h = absurd (omega arith)
alpha_first-IsName (c ∷ s) n h = elim (Bool-cases (is_alpha c)) [
  | inl e ↦ rw e (first-alpha c e, hex-Tail s h.1, omega arith)
  | inr e ↦ rw e (first-U, hex-Tail s h.1, omega arith)
]

-- With a sum of 32 hexadecimal digits, as MD5 gives, every string that is not empty gives a valid
-- user name: the sum, with `U` for its first digit where that is no letter.
generate_username_valid :
    (md5 : Str → Str) (str : Str)
    → length (md5 str) ≡ 32
    → All IsHexDigit (md5 str)
    → str ≢ []
    → (generate_username md5 (some str) ≡ ok (with_alpha_first (md5 str)))
      × (validate_name (some (with_alpha_first (md5 str))) ≡ ok tt)
unfolding generate_username
generate_username_valid md5 [] n h e = absurd (e refl)
generate_username_valid md5 (c ∷ s) n h e =
    let v =
      (validate_name_iff (some (with_alpha_first (md5 (c ∷ s))))).1
        (alpha_first-IsName (md5 (c ∷ s)) n h) in
    (rw v (ground arith), v)
