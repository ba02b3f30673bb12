-- ===== src/File/Placement/Distinct.antt =====
-- Placing, removing and replacing entries in a list in which no two are the same.
use platform_upstream_gumd.Common.{
  ◌≡◌, Bool, false, ◌||◌, none, List, [], ◌∷◌, Bool-cases, inl, inr, arith,
}
use platform_upstream_gumd.File.{find_entry}
use platform_upstream_gumd.File.Placement.{insert_before, remove_first, any}

module _ {A : Type 0} (same : A → A → Bool) where
  -- No entry is the same as a later one.
  abbrev pub Distinct : List A → Type 0
  Distinct [] = Unit
  Distinct (e ∷ es) = (any (same e) es ≡ false) × Distinct es

  any-insert_before :
      (p : A → Bool) (q : A → Bool) (new : A) (es : List A)
      → any q (insert_before p new es) ≡ (q new || any q es)
  unfolding any insert_before
  any-insert_before p q new [] = ground arith
  any-insert_before p q new (e ∷ es) = ground (arith, any-insert_before p q new es)

  any-remove_first :
      (p : A → Bool) (q : A → Bool) (es : List A)
      → any q es ≡ false
      → any q (remove_first p es) ≡ false
  unfolding any remove_first
  any-remove_first p q [] h = ground arith
  any-remove_first p q (e ∷ es) h = ground (arith, any-remove_first p q es)

  -- A new entry that is the same as none keeps the entries distinct, wherever it is put.
  pub insert_before-Distinct :
      (p : A → Bool) (new : A) (es : List A)
      → ((x y : A) → same x y ≡ same y x)
      → any (same new) es ≡ false
      → Distinct es
      → Distinct (insert_before p new es)
  unfolding any insert_before
  insert_before-Distinct p new [] swap h d = ground arith
  insert_before-Distinct p new (e ∷ es) swap h d = elim (Bool-cases (p e)) [
    | inl goes ↦ rw goes (h, d)
    | inr stays ↦ rw stays (
      ground (arith, any-insert_before p (same e) new es, swap e new),
      insert_before-Distinct p new es swap (ground arith) d.1,
    )
  ]

  pub remove_first-Distinct :
      (p : A → Bool) (es : List A) → Distinct es → Distinct (remove_first p es)
  unfolding any remove_first
  remove_first-Distinct p [] d = tt
  remove_first-Distinct p (e ∷ es) d = elim (Bool-cases (p e)) [
    | inl meant ↦ rw meant d.1
    | inr other ↦ rw other (any-remove_first p (same e) es d.0, remove_first-Distinct p es d.1)
  ]

-- What the lookups do not find is the same as no entry.
pub find_entry-any :
    {A : Type 0} (p : A → Bool) (es : List A) → find_entry p es ≡ none → any p es ≡ false
unfolding find_entry any
find_entry-any p [] h = ground arith
find_entry-any p (e ∷ es) h = ground (arith, find_entry-any p es)
