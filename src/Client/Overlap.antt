-- ===== src/Client/Overlap.antt =====
-- Two operations that a client starts one after the other, without waiting for the first.
use platform_upstream_gumd.Common.{
  ℕ, ◌≡◌, ◌≢◌, refl, ap, ◌∙◌, Bool, Option, none, some, List, [], ◌∷◌, Str, arith,
}
use platform_upstream_gumd.Error.{Error}
use platform_upstream_gumd.Client.{
  GError, remote, finished, failed, Client, without, start, trigger_callback, dispose, on_reply,
}
use platform_upstream_gumd.Client.Turns.{freed_op-idle}

module _ {M : Type 0} (new_id : List ℕ → ℕ) (proxied : Str → Bool) where
  -- The first call is answered by an error, and the second, which is under way all the time, succeeds.
  abbrev pub both : ℕ → ℕ → M → M → Client M → Client M
  both cb1 cb2 m1 m2 c = start (some cb2) m2 (start (some cb1) m1 c)

  abbrev pub answers : Error → M → Client M → Option (Client M)
  answers e m2 d = elim (on_reply new_id proxied (failed (remote e)) d) [
    | none ↦ none
    | some d' ↦ on_reply new_id proxied finished (record d' { calls = [] })
  ]

  abbrev second : ℕ → List M → Client M → Client M
  second cb2 calls c = record c {
    op = some (record { callback = some cb2; error = none; cb_id = 0 });
    calls = calls;
    idle = [];
  }

  abbrev misled : ℕ → Error → Client M → Client M
  misled cb2 e c = record c {
    op =
        some (record {
          callback = some cb2;
          error = some (remote e);
          cb_id = new_id (new_id [] ∷ []);
        });
    calls = [];
    idle = new_id (new_id [] ∷ []) ∷ new_id [] ∷ [];
  }

  both-eq-second :
      (cb1 cb2 : ℕ) (m1 m2 : M) (calls : List M) (c : Client M)
      → c.idle ≡ []
      → record (both cb1 cb2 m1 m2 c) { calls = calls } ≡ second cb2 calls c
  unfolding start
  both-eq-second cb1 cb2 m1 m2 calls c i =
      ap (λ l. record (second cb2 calls c) { idle = l }) (freed_op-idle c.op c.idle i)

  answers-second :
      (cb2 : ℕ) (m2 : M) (e : Error) (c : Client M)
      → answers e m2 (second cb2 (m2 ∷ []) c) ≡ some (misled cb2 e c)
  unfolding on_reply
  answers-second cb2 m2 e c = refl

  -- The main loop calls two sources, one after the other.
  abbrev pub dispatch_both : ℕ → ℕ → Client M → Option (Client M)
  dispatch_both first next d = elim (trigger_callback first d) [
    | none ↦ none
    | some d' ↦ trigger_callback next d'
  ]

  abbrev pub called_of : Option (Client M) → Option (List (ℕ × Option GError))
  called_of none = none
  called_of (some d) = some d.called

  -- Two operations are started at an object without sources, and both calls are answered before the main
  -- loop calls a source: the first by an error, the second by a success. Then the sources of both
  -- replies are there, and when they have been called in their order, the callback of the second has
  -- been called twice, both times with the error of the first, and no other callback has. If the
  -- object is disposed of in place of that, the source of the first reply is left, which would call
  -- it back.
  pub overlap_misled :
      (cb1 cb2 : ℕ) (m1 m2 : M) (e : Error) (c : Client M)
      → c.idle ≡ []
      → new_id (new_id [] ∷ []) ≢ 0
      → new_id (new_id [] ∷ []) ≢ new_id []
      → (d : Client M) × ((answers e m2 (record (both cb1 cb2 m1 m2 c) { calls = m2 ∷ [] })
            ≡ some d)
          × ((d.idle ≡ new_id (new_id [] ∷ []) ∷ new_id [] ∷ [])
              × ((called_of (dispatch_both (new_id []) (new_id (new_id [] ∷ [])) d)
                    ≡ some ((cb2, some (remote e)) ∷ (cb2, some (remote e)) ∷ c.called))
                  × ((dispose d).idle ≡ new_id [] ∷ []))))
  unfolding trigger_callback dispose without
  overlap_misled cb1 cb2 m1 m2 e c i z fresh = (
    misled cb2 e c,
    (
      ap (answers e m2) (both-eq-second cb1 cb2 m1 m2 (m2 ∷ []) c i) ∙ answers-second cb2 m2 e c,
      (refl, (refl, ground arith)),
    ),
  )
