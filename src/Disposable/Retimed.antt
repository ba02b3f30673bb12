-- ===== src/Disposable/Retimed.antt =====
-- What becomes of an object whose timeout is set while a timer runs.
use platform_upstream_gumd.Common.{ℕ, ◌≡◌, ◌≢◌, false, List, [], ◌∷◌, arith}
use platform_upstream_gumd.Disposable.{
  Source, Disposable, new_disposable, without_source, remove_timer, dispatch, with_source,
  set_timeout,
}

module _ (new_id : List Source → ℕ) (positive : (sources : List Source) → new_id sources ≢ 0)
    (new : (s : Source) → new_id (s ∷ []) ≢ s.id) where
  -- The object after two timeouts have been set, one after the other.
  abbrev pub retimed : ℕ → ℕ → Disposable
  retimed a b = set_timeout new_id b (set_timeout new_id a new_disposable)

  abbrev pub first_source : Source
  first_source = record { id = new_id []; idle = false }

  -- Two different timeouts that are set one after the other leave two timers in the main loop; when the
  -- first one comes, the object is disposed of, and the other timer is left in the main loop.
  retimed_dangling :
      (a b : ℕ)
      → a ≢ 0
      → b ≢ 0
      → a ≢ b
      → let second : Source = record { id = new_id (first_source ∷ []); idle = false } in
        ((retimed a b).sources ≡ second ∷ first_source ∷ [])
        × ((dispatch first_source (retimed a b)).refs ≡ 0)
        × ((dispatch first_source (retimed a b)).sources ≡ second ∷ [])
  unfolding set_timeout with_source dispatch remove_timer without_source
  retimed_dangling a b p q n = ground (arith, new first_source)

  -- A timeout of 0 that is set while a timer runs leaves it in the main loop, and the object is still
  -- disposed of.
  zero_timeout-disposed :
      (a : ℕ)
      → a ≢ 0
      → let d = set_timeout new_id 0 (set_timeout new_id a new_disposable) in
        (d.timeout ≡ 0) × (d.sources ≡ first_source ∷ []) × ((dispatch first_source d).refs ≡ 0)
  unfolding set_timeout with_source dispatch remove_timer without_source
  zero_timeout-disposed a p = ground (arith, positive [])
