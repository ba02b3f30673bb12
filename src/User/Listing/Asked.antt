-- ===== src/User/Listing/Asked.antt =====
-- The types that are asked for by their names.
use Prim.Native.Nat.{bit_and, bit_or}
use platform_upstream_gumd.Common.{
  ℕ, ◌<◌, ◌≡◌, ◌⊎◌, refl, inl, inr, Bool, true, false, not, ◌&&◌, ◌||◌, Option, none, some, List,
  [], ◌∷◌, Str, codes, ltb, ◌==◌, if◌then◌else◌, strcmp0_eq, strcmp0_eq_iff, holds_below,
  holds_below_at, Bool-cases, arith,
}
use platform_upstream_gumd.File.Placement.{any}
use platform_upstream_gumd.User.Listing.{asked_types}
use platform_upstream_gumd.UserTypes.{
  value_of, type_from_string, user_type_strings, or_all, type_from_strv,
}

-- The names of the types that a user can have.
abbrev pub type_names : List Str
type_names = codes "system" ∷ codes "admin" ∷ codes "guest" ∷ codes "normal" ∷ codes "security" ∷ []

abbrev pub is_type : Str → Bool
is_type s = any (λ n. strcmp0_eq (some s) (some n)) type_names

abbrev distributes : ℕ → ℕ → ℕ → Bool
distributes t a b =
    (if not (bit_and t a == 0) || not (bit_and t b == 0)
      then not (bit_and t (bit_or a b) == 0)
      else bit_and t (bit_or a b) == 0)
    && ltb (bit_or a b) 32

table : holds_below (λ t. holds_below (λ a. holds_below (λ b. distributes t a b) 32) 32) 32 ≡ true
unfolding holds_below
table = refl

distributes_at : (t a b : ℕ) → t < 32 → a < 32 → b < 32 → distributes t a b ≡ true
distributes_at t a b ht ha hb = holds_below_at (distributes t a) 32 b hb (
    holds_below_at (λ a. holds_below (λ b. distributes t a b) 32) 32 a ha
      (holds_below_at (λ t. holds_below (λ a. holds_below (λ b. distributes t a b) 32) 32) 32 t ht
        table))

type_below : (s : Str) → type_from_string (some s) < 32
unfolding type_from_string value_of user_type_strings
type_below [] = ground arith
type_below (c ∷ s) = ground arith

pub type_none : (s : Str) → is_type s ≡ false → type_from_string (some s) ≡ 0
unfolding type_from_string value_of user_type_strings any strcmp0_eq
type_none [] h = refl
type_none (c ∷ s) h = ground arith

unfoldable name_at : ℕ → Str
name_at i =
    if i == 0
    then codes "system"
    else if i == 1
    then codes "admin"
    else if i == 2
    then codes "guest"
    else if i == 3
    then codes "normal"
    else codes "security"

abbrev same : Str → Str → Bool
same s n = strcmp0_eq (some s) (some n)

-- One of the names of the types.
Named : Str → Type 0
Named s = (i : ℕ) × (i < 5) × (s ≡ name_at i)

same-Named : (s : Str) (i : ℕ) → i < 5 → same s (name_at i) ≡ true → Named s
unfolding Named
same-Named s i h e = (i, h, cc ((strcmp0_eq_iff (some s) (some (name_at i))).0 e))

Named-or_not : (s : Str) → Named s ⊎ (is_type s ≡ false)
unfolding name_at any
Named-or_not s = elim (Bool-cases (same s (codes "system"))) [
  | inl e ↦ inl (same-Named s 0 (omega arith) e)
  | inr e0 ↦ elim (Bool-cases (same s (codes "admin"))) [
    | inl e ↦ inl (same-Named s 1 (omega arith) e)
    | inr e1 ↦ elim (Bool-cases (same s (codes "guest"))) [
      | inl e ↦ inl (same-Named s 2 (omega arith) e)
      | inr e2 ↦ elim (Bool-cases (same s (codes "normal"))) [
        | inl e ↦ inl (same-Named s 3 (omega arith) e)
        | inr e3 ↦ elim (Bool-cases (same s (codes "security"))) [
          | inl e ↦ inl (same-Named s 4 (omega arith) e)
          | inr e4 ↦ inr (rw (e0, e1, e2, e3, e4) refl)
        ]
      ]
    ]
  ]
]

-- Two types have a bit in common exactly if they are the same.
abbrev meets : Str → Str → Bool
meets n s = not (bit_and (type_from_string (some n)) (type_from_string (some s)) == 0)

agree : ℕ → ℕ → Bool
agree i j =
    if meets (name_at i) (name_at j)
    then same (name_at j) (name_at i)
    else not (same (name_at j) (name_at i))

meets_table : holds_below (λ i. holds_below (agree i) 5) 5 ≡ true
unfolding holds_below agree name_at type_from_string value_of user_type_strings strcmp0_eq
meets_table = refl

agree_at : (i j : ℕ) → i < 5 → j < 5 → meets (name_at i) (name_at j) ≡ same (name_at j) (name_at i)
unfolding agree
agree_at i j hi hj =
    let e : agree i j ≡ true =
      holds_below_at (agree i) 5 j hj
        (holds_below_at (λ i. holds_below (agree i) 5) 5 i hi meets_table) in
    ground arith

some_table : holds_below (λ i. not (type_from_string (some (name_at i)) == 0)) 5 ≡ true
unfolding holds_below name_at type_from_string value_of user_type_strings strcmp0_eq
some_table = refl

pub type_some : (s : Str) → is_type s ≡ true → (type_from_string (some s) == 0) ≡ false
unfolding Named
type_some s h = elim (Named-or_not s) [
  | inr f ↦ absurd (cc (f, h))
  | inl (i, hi, es) ↦
      let e =
        holds_below_at (λ i. not (type_from_string (some (name_at i)) == 0)) 5 i hi some_table in
      rw es (ground (arith, e))
]

bit_table : holds_below (λ t. bit_and t 0 == 0) 32 ≡ true
unfolding holds_below
bit_table = refl

bit_and_zero : (t : ℕ) → t < 32 → (bit_and t 0 == 0) ≡ true
bit_and_zero t h = holds_below_at (λ t. bit_and t 0 == 0) 32 t h bit_table

other-same : (n s : Str) → is_type n ≡ true → is_type s ≡ false → same s n ≡ false
other-same n s h f = elim (Bool-cases (same s n)) [
  | inr e ↦ e
  | inl e ↦
      let equal : some s ≡ some n = (strcmp0_eq_iff (some s) (some n)).0 e in
      absurd (cc (equal, f, h))
]

meets-same : (n s : Str) → is_type n ≡ true → meets n s ≡ same s n
unfolding Named
meets-same n s h = elim (Named-or_not n) [
  | inr f ↦ absurd (cc (f, h))
  | inl (i, hi, en) ↦ elim (Named-or_not s) [
    | inl (j, hj, es) ↦ rw (en, es) (agree_at i j hi hj)
    | inr f ↦
        rw
          (
            type_none s f,
            other-same n s h f,
            bit_and_zero (type_from_string (some n)) (type_below n),
          )
          refl
  ]
]

-- Some of the names is that of the type.
abbrev pub among : Str → List Str → Bool
among n names = any (λ s. strcmp0_eq (some s) (some n)) names

or_all-among :
    (n : Str) (strv : List Str) (r : ℕ)
    → is_type n ≡ true
    → r < 32
    → not (bit_and (type_from_string (some n)) (or_all r strv) == 0)
      ≡ (not (bit_and (type_from_string (some n)) r == 0) || among n strv)
unfolding or_all any
or_all-among n [] r h below = ground arith
or_all-among n (s ∷ strv) r h below = ground (
  arith,
  type_below n,
  type_below s,
  meets-same n s h,
  distributes_at (type_from_string (some n)) r (type_from_string (some s)),
  or_all-among n strv (bit_or r (type_from_string (some s))) h,
)

-- No names ask for all types but `security`.
abbrev pub asked_names : Option (List Str) → List Str
asked_names none = codes "system" ∷ codes "admin" ∷ codes "guest" ∷ codes "normal" ∷ []
asked_names (some []) = codes "system" ∷ codes "admin" ∷ codes "guest" ∷ codes "normal" ∷ []
asked_names (some (s ∷ strv)) = s ∷ strv

asked_types-or_all : (types : Option (List Str)) → asked_types types ≡ or_all 0 (asked_names types)
unfolding asked_types type_from_strv or_all type_from_string value_of user_type_strings strcmp0_eq
asked_types-or_all none = refl
asked_types-or_all (some []) = refl
asked_types-or_all (some (s ∷ strv)) = ground arith

pub asked_types-among :
    (n : Str) (types : Option (List Str))
    → is_type n ≡ true
    → not (bit_and (type_from_string (some n)) (asked_types types) == 0)
      ≡ among n (asked_names types)
asked_types-among n types h =
    rw
      (
        asked_types-or_all types,
        or_all-among n (asked_names types) 0 h (omega arith),
        bit_and_zero (type_from_string (some n)) (type_below n),
      )
      refl
