-- ===== src/Ids/Free.antt =====
-- What the search for a free id gives: with a range that ends below the largest id it comes to an end.
use platform_upstream_gumd.Common.{
  ℕ, zero, suc, ◌+◌, ◌-◌, ◌%◌, ◌≤◌, ◌<◌, ◌≡◌, ◌≢◌, ◌⊎◌, inl, inr, Option, none, some, ltb, leb,
  ◌==◌, Option-cases, Bool-cases, arith,
}
use platform_upstream_gumd.File.{invalid_id}
use platform_upstream_gumd.Ids.{
  Range, Scan, found, all_used, out_of_fuel, u32_mod, scan_ids, scanned, find_in_range,
}

module _ {A : Type 0} (lookup : ℕ → Option A) (max : ℕ) where
  -- What a scan from `tmp` on has found out: the first id that no entry has, or that all up to `max`
  -- are in use.
  abbrev pub Scanned : ℕ → Scan → Type 0
  Scanned tmp (found g) =
      (lookup g ≡ none) × (tmp ≤ g) × (g ≤ max) × ((k : ℕ) → tmp ≤ k → k < g → lookup k ≢ none)
  Scanned tmp all_used = (k : ℕ) → tmp ≤ k → k ≤ max → lookup k ≢ none
  Scanned tmp out_of_fuel = ⊥

  extend : (tmp : ℕ) (r : Scan) → lookup tmp ≢ none → Scanned (tmp + 1) r → Scanned tmp r
  extend tmp (found g) used h = (
    h.0,
    omega arith,
    h.2,
    λ k lo hi. elim (Bool-cases (k == tmp)) [
      | inl e ↦ let same : k ≡ tmp = ground arith in rw same used
      | inr e ↦ h.3 k (ground arith) hi
    ],
  )
  extend tmp all_used used h = λ k lo hi. elim (Bool-cases (k == tmp)) [
    | inl e ↦ let same : k ≡ tmp = ground arith in rw same used
    | inr e ↦ h k (ground arith) hi
  ]
  extend tmp out_of_fuel used h = h

  -- With a bound below the largest `gid_t`, and fuel for each id and one round more, the loop ends.
  pub scan_ids-Scanned :
      (fuel tmp : ℕ)
      → max < invalid_id
      → tmp ≤ max + 1
      → max + 1 < tmp + fuel
      → Scanned tmp (scan_ids lookup max fuel tmp)
  unfolding scan_ids
  scan_ids-Scanned zero tmp small start enough = absurd (omega arith)
  scan_ids-Scanned (suc fuel) tmp small start enough = elim (Bool-cases (leb tmp max)) [
    | inl more ↦
        let next : (tmp + 1) % u32_mod ≡ tmp + 1 = ground arith in
        rw more (elim (Option-cases (lookup tmp)) [
          | inl free ↦ rw free (free, omega arith, ground arith, λ k lo hi. absurd (omega arith))
          | inr (g, e) ↦
              rw (e, next)
                (extend tmp _ (rw e (ground arith))
                  (scan_ids-Scanned fuel (tmp + 1) small (ground arith) (omega arith)))
        ])
    | inr done ↦ rw done (λ k lo hi. absurd (ground arith))
  ]

-- Each of the `n` ids from `lo` on has an entry.
abbrev pub AllUsed : {A : Type 0} → (ℕ → Option A) → ℕ → ℕ → Type 0
AllUsed lookup lo zero = Unit
AllUsed lookup lo (suc n) = (lookup lo ≢ none) × AllUsed lookup (lo + 1) n

all-AllUsed :
    {A : Type 0} (lookup : ℕ → Option A) (lo n : ℕ)
    → ((k : ℕ) → lo ≤ k → k < lo + n → lookup k ≢ none)
    → AllUsed lookup lo n
all-AllUsed lookup lo zero h = tt
all-AllUsed lookup lo (suc n) h = (
  h lo (omega arith) (omega arith),
  all-AllUsed lookup (lo + 1) n (λ k a b. h k (omega arith) (omega arith)),
)

module _ {A : Type 0} (lookup : ℕ → Option A) (range : Range) where
  -- The first id of the range that is free, or none if the range is improper or wholly in use.
  abbrev pub Searched : Option ℕ → Type 0
  Searched (some id) =
      (lookup id ≡ none)
      × (range.min ≤ id)
      × (id ≤ range.max)
      × AllUsed lookup range.min (id - range.min)
  Searched none = (range.max ≤ range.min) ⊎ AllUsed lookup range.min (range.max + 1 - range.min)

  scanned-Searched : (r : Scan) → Scanned lookup range.max range.min r → Searched (scanned r)
  scanned-Searched (found id) h = (
    h.0,
    h.1,
    h.2,
    all-AllUsed lookup range.min (id - range.min) (λ k a b. h.3 k a (omega (arith, a, b, h.1))),
  )
  scanned-Searched all_used h = inr (
      all-AllUsed lookup range.min (range.max + 1 - range.min)
        (λ k a b. h k a (omega (arith, a, b))))
  scanned-Searched out_of_fuel h = absurd h

  pub find_in_range-Searched :
      range.max < invalid_id
      → range.proper ≡ ltb range.min range.max
      → Searched (find_in_range lookup range)
  unfolding find_in_range
  find_in_range-Searched small e = elim (Bool-cases (ltb range.min range.max)) [
    | inl proper ↦
        rw (e, proper)
          (scanned-Searched _ (
            scan_ids-Scanned lookup range.max (range.max - range.min + 2) range.min small
              (ground arith) (ground arith)))
    | inr improper ↦ rw (e, improper) (inl (ground arith))
  ]

  -- An id that is found is free, whatever the range is.
  abbrev pub IsFree : Option ℕ → Type 0
  IsFree none = Unit
  IsFree (some id) = lookup id ≡ none

  scan_ids-IsFree : (max fuel tmp : ℕ) → IsFree (scanned (scan_ids lookup max fuel tmp))
  unfolding scan_ids
  scan_ids-IsFree max zero tmp = tt
  scan_ids-IsFree max (suc fuel) tmp =
      ground (arith, scan_ids-IsFree max fuel ((tmp + 1) % u32_mod))

  pub find_in_range-IsFree : IsFree (find_in_range lookup range)
  unfolding find_in_range
  find_in_range-IsFree =
      ground (arith, scan_ids-IsFree range.max (range.max - range.min + 2) range.min)
