-- ===== src/Tests/Disposables.antt =====
-- Disposable objects with a main loop that numbers its sources.
use platform_upstream_gumd.Common.{ℕ, suc, ◌≡◌, ◌≢◌, refl, List, [], ◌∷◌, arith}
use platform_upstream_gumd.Disposable.{
  Source, Disposable, new_disposable, set_timeout, dispatch, Reached, created, after_step,
  sets_timeout,
}
use platform_upstream_gumd.Disposable.Tracked.{Tracked, Reached-Tracked, Reached-disposed}

-- An id that the newest source does not have.
abbrev pub number : List Source → ℕ
number [] = 1
number (s ∷ rest) = suc s.id

pub number_positive : (sources : List Source) → number sources ≢ 0
number_positive [] = ground arith
number_positive (s ∷ rest) = ground arith

number_new : (s : Source) → number (s ∷ []) ≢ s.id
number_new s = ground arith

abbrev timed : Disposable
timed = set_timeout number 5 new_disposable

timed-Reached : Reached number timed
timed-Reached = after_step created (sets_timeout 5 (ground arith) refl)

Reached-Tracked_example : Tracked timed
Reached-Tracked_example = Reached-Tracked number number_positive timed-Reached

Reached-disposed_example :
    (s : Source) × (timed.sources ≡ s ∷ [])
    × ((dispatch s timed).refs ≡ 0)
    × ((dispatch s timed).sources ≡ [])
    × ((dispatch s timed).emitted ≡ 1)
unfolding set_timeout
Reached-disposed_example =
    Reached-disposed number number_positive timed-Reached refl refl (ground arith) refl refl
