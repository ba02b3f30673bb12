-- ===== src/File/Placement.antt =====
-- The update loop against plain functions on the list of entries.
pub mod Distinct
use platform_upstream_gumd.Common.{
  ℕ, suc, ◌≡◌, refl, ap, Bool, true, false, ◌⊎◌, inl, inr, List, [], ◌∷◌, if◌then◌else◌, All,
  Bool-cases, arith,
}
use platform_upstream_gumd.Error.{Result, ok, err, file_write}
use platform_upstream_gumd.File.{OpType, add, delete, modify}
use platform_upstream_gumd.File.Entries.{Rules, update_loop}

module _ {A : Type 0} where
  -- `new` before the first entry that it goes before, or at the end.
  unfoldable pub insert_before : (A → Bool) → A → List A → List A
  insert_before before new [] = new ∷ []
  insert_before before new (e ∷ es) =
      let rest = insert_before before new es in if before e then new ∷ e ∷ es else e ∷ rest

  -- The list without the first entry that passes the test.
  unfoldable pub remove_first : (A → Bool) → List A → List A
  remove_first p [] = []
  remove_first p (e ∷ es) = let rest = remove_first p es in if p e then es else e ∷ rest

  -- The first entry that passes the test is replaced by `new`.
  unfoldable pub replace_first : (A → Bool) → A → List A → List A
  replace_first p new [] = []
  replace_first p new (e ∷ es) =
      let rest = replace_first p new es in if p e then new ∷ es else e ∷ rest

  -- Some entry passes the test.
  unfoldable pub any : (A → Bool) → List A → Bool
  any p [] = false
  any p (e ∷ es) = let rest = any p es in if p e then true else rest

-- An entry that is a duplicate comes before one that the own entry goes before, or is that one.
unfoldable pub clash_before : {A : Type 0} → (A → Bool) → (A → Bool) → List A → Bool
clash_before clashes before [] = false
clash_before clashes before (e ∷ es) =
    let rest = clash_before clashes before es in
    if clashes e then true else if before e then false else rest

-- Some write fails.
pub data WriteFails {A : Type 0} (put_ok : ℕ → A → Bool) : Type 0 where
  failing : (n : ℕ) (e : A) → put_ok n e ≡ false → WriteFails put_ok

-- The entries are as they are read from a file.
abbrev pub Settled : {A : Type 0} → (A → A) → List A → Type 0
Settled stored = All (λ e. stored e ≡ e)

module _ {A : Type 0} (r : Rules A) (put_ok : ℕ → A → Bool) where
  open r use {stored, own, clashes, clash_error, goes_before, deletes, replaces}

  abbrev loop : OpType → Bool → ℕ → List A → Result (List A)
  loop = update_loop r put_ok

  -- Once its own entry is dealt with, the loop copies what is left, or a write fails.
  loop_done :
      {W : Type 0} (fails : (n : ℕ) (e : A) → put_ok n e ≡ false → W) (op : OpType) (n : ℕ)
      (es : List A)
      → Settled stored es
      → (loop op true n es ≡ ok es) ⊎ (loop op true n es ≡ err file_write) × W
  unfolding update_loop
  loop_done fails op n [] s = ground arith
  loop_done fails op n (e ∷ es) s = ground (arith, loop_done fails op (suc n) es s.1, fails n e)

  loop_inserting :
      {W : Type 0} (fails : (n : ℕ) (e : A) → put_ok n e ≡ false → W) (n : ℕ) (es : List A)
      → Settled stored es
      → (loop add false n es ≡ ok (insert_before goes_before (stored own) es))
          × (clash_before clashes goes_before es ≡ false)
        ⊎ (loop add false n es ≡ err file_write) × W
        ⊎ (loop add false n es ≡ err clash_error) × (clash_before clashes goes_before es ≡ true)
  unfolding update_loop insert_before clash_before
  loop_inserting fails n [] s = ground (arith, fails n own)
  loop_inserting fails n (e ∷ es) s = ground (
    arith,
    loop_inserting fails (suc n) es s.1,
    loop_done fails add (suc (suc n)) es s.1,
    fails n own,
    fails n e,
    fails (suc n) e,
  )

  -- On entries as they are read from a file, ADD writes the file with the own entry inserted, and
  -- there was no duplicate up to the place of the insertion; or a write fails, and so does it; or
  -- there was a duplicate, and it fails with the error for that.
  pub loop-insert_before :
      (n : ℕ) (es : List A)
      → Settled stored es
      → (loop add false n es ≡ ok (insert_before goes_before (stored own) es))
          × (clash_before clashes goes_before es ≡ false)
        ⊎ (loop add false n es ≡ err file_write) × WriteFails put_ok
        ⊎ (loop add false n es ≡ err clash_error) × (clash_before clashes goes_before es ≡ true)
  loop-insert_before n es s = loop_inserting (λ n e h. failing n e h) n es s

  -- On entries as they are read from a file, DELETE writes the file without the first entry that is
  -- meant; if there is none, or a write fails, it fails.
  pub loop-remove_first :
      (n : ℕ) (es : List A)
      → Settled stored es
      → (loop delete false n es ≡ ok (remove_first deletes es)) × (any deletes es ≡ true)
        ⊎ (loop delete false n es ≡ err file_write)
  unfolding update_loop remove_first any
  loop-remove_first n [] s = ground arith
  loop-remove_first n (e ∷ es) s =
      ground (arith, loop-remove_first (suc n) es s.1, loop_done (λ _ _ _. tt) delete n es s.1)

  -- On entries as they are read from a file, MODIFY writes the file with the own entry in place of
  -- the first one that is meant; if there is none, or a write fails, it fails.
  pub loop-replace_first :
      (n : ℕ) (es : List A)
      → Settled stored es
      → (loop modify false n es ≡ ok (replace_first replaces (stored own) es))
          × (any replaces es ≡ true)
        ⊎ (loop modify false n es ≡ err file_write)
  unfolding update_loop replace_first any
  loop-replace_first n [] s = ground arith
  loop-replace_first n (e ∷ es) s =
      ground
        (arith, loop-replace_first (suc n) es s.1, loop_done (λ _ _ _. tt) modify (suc n) es s.1)

  -- Where no entry is tested for its place, a duplicate is always found.
  pub loop_clash :
      (n : ℕ) (es : List A)
      → ((e : A) → goes_before e ≡ false)
      → any clashes es ≡ true
      → (loop add false n es ≡ err file_write) ⊎ (loop add false n es ≡ err clash_error)
  unfolding update_loop any
  loop_clash n [] g h = ground arith
  loop_clash n (e ∷ es) g h = ground (arith, g e, loop_clash (suc n) es g)

  module _ (all_ok : (n : ℕ) (e : A) → put_ok n e ≡ true) where
    loop_done_total :
        (op : OpType) (n : ℕ) (es : List A) → Settled stored es → loop op true n es ≡ ok es
    unfolding update_loop
    loop_done_total op n [] s = ground arith
    loop_done_total op n (e ∷ es) s = ground (arith, all_ok n e, loop_done_total op (suc n) es s.1)

    -- On entries as they are read from a file, none of them a duplicate, and where all writes succeed,
    -- ADD writes the file with the own entry inserted.
    loop-insert_before_total :
        (n : ℕ) (es : List A)
        → Settled stored es
        → any clashes es ≡ false
        → loop add false n es ≡ ok (insert_before goes_before (stored own) es)
    unfolding update_loop insert_before any
    loop-insert_before_total n [] s h = ground (arith, all_ok n own)
    loop-insert_before_total n (e ∷ es) s h = ground (
      arith,
      all_ok n own,
      all_ok n e,
      all_ok (suc n) e,
      loop-insert_before_total (suc n) es s.1,
      loop_done_total add (suc (suc n)) es s.1,
    )

    -- On entries as they are read from a file, and where all writes succeed, DELETE writes the file
    -- without the first entry that is meant, and fails exactly if there is none.
    loop-remove_first_total :
        (n : ℕ) (es : List A)
        → Settled stored es
        → loop delete false n es
          ≡ (if any deletes es then ok (remove_first deletes es) else err file_write)
    unfolding update_loop remove_first any
    loop-remove_first_total n [] s = refl
    loop-remove_first_total n (e ∷ es) s = elim (Bool-cases (deletes e)) [
      | inl d ↦ rw d (loop_done_total delete n es s.1)
      | inr d ↦
          rw (d, loop-remove_first_total (suc n) es s.1, all_ok n e)
            (elim (Bool-cases (any deletes es)) [
              | inl a ↦ rw a (ap (λ x. ok (x ∷ remove_first deletes es)) s.0)
              | inr a ↦ rw a
            ])
    ]
