-- ===== src/World/Post.antt =====
-- What holds after an action: `Q` of the value and the state where it succeeds, `E` of the state
-- where it fails.
use platform_upstream_gumd.Common.{Bool, true, false, arith}
use platform_upstream_gumd.Error.{Error, Result, ok, err}
use platform_upstream_gumd.World.{
  Os, State, Action, resume, ◌>>=◌, unlock_db, or_unlock, gets, require,
}

abbrev pub Post :
    {O A : Type 0} → (A → State O → Type 0) → (State O → Type 0) → Result A × State O → Type 0
Post Q E (ok a, s) = Q a s
Post Q E (err e, s) = E s

module _ {O A B : Type 0} (R : A → State O → Type 0) (Q : B → State O → Type 0)
    (E : State O → Type 0) where
  Post-resume :
      (f : A → Action O B) (x : Result A × State O)
      → Post R E x
      → ((a : A) (s : State O) → R a s → Post Q E (f a s))
      → Post Q E (resume f x)
  Post-resume f (ok a, s) h k = k a s h
  Post-resume f (err e, s) h k = h

  pub Post-bind :
      (m : Action O A) (f : A → Action O B) (s : State O)
      → Post R E (m s)
      → ((a : A) (t : State O) → R a t → Post Q E (f a t))
      → Post Q E ((m >>= f) s)
  unfolding ◌>>=◌
  Post-bind m f s = Post-resume f (m s)

module _ (os : Os) {O A : Type 0} (Q : A → State O → Type 0) (E : State O → Type 0) where
  pub Post-or_unlock :
      (m : Action O A) (s : State O)
      → Post Q E (m s)
      → ((t : State O) → E t → E (unlock_db os t).1)
      → Post Q E (or_unlock os m s)
  unfolding or_unlock
  Post-or_unlock m s h k = ground (arith, k (m s).1)

pub Post-mono :
    {O A : Type 0} (Q : A → State O → Type 0) (E E' : State O → Type 0) (x : Result A × State O)
    → ((t : State O) → E t → E' t)
    → Post Q E x
    → Post Q E' x
Post-mono Q E E' (ok a, s) k h = h
Post-mono Q E E' (err e, s) k h = k s h

-- From a state with `P` the action ends as `Post` says.
pub record Triple {O A : Type 0} (P : State O → Type 0) (Q : A → State O → Type 0)
    (E : State O → Type 0) (m : Action O A) : Type 0 where
  pub holds : (s : State O) → P s → Post Q E (m s)

pub bind-Triple :
    {O A B : Type 0} (P R : State O → Type 0) (Q : B → State O → Type 0) (E : State O → Type 0)
    (m : Action O A) (f : A → Action O B)
    → Triple P (λ _. R) E m
    → ((a : A) → Triple R Q E (f a))
    → Triple P Q E (m >>= f)
bind-Triple P R Q E m f p q = record {
  holds = λ s h. Post-bind (λ _. R) Q E m f s (p.holds s h) λ a t r. (q a).holds t r;
}

module _ {O : Type 0} (P E : State O → Type 0) where
  pub gets-Triple : {A : Type 0} (f : State O → A) → Triple P (λ _. P) E (gets f)
  unfolding gets
  gets-Triple f = record { holds = λ s h. h }

  pub require-Triple :
      (test : Bool) (e : Error) → ((t : State O) → P t → E t) → Triple P (λ _. P) E (require test e)
  unfolding require
  require-Triple true e k = record { holds = λ s h. h }
  require-Triple false e k = record { holds = λ s h. k s h }

-- The failure may be known to be a better one.
pub or_unlock-Triple :
    (os : Os) {O A : Type 0} (P : State O → Type 0) (Q : A → State O → Type 0)
    (E E' : State O → Type 0) (m : Action O A)
    → ((t : State O) → E t → E' (unlock_db os t).1)
    → Triple P Q E m
    → Triple P Q E' (or_unlock os m)
unfolding or_unlock
or_unlock-Triple os P Q E E' m k p = record {
  holds = λ s h. ground (arith, p.holds s h, k (m s).1);
}

-- `bind-Triple` with its assertions read off the steps.
pub seq :
    {O A B : Type 0} {P R : State O → Type 0} {Q : B → State O → Type 0} {E : State O → Type 0}
    {m : Action O A} {f : A → Action O B}
    → Triple P (λ _ t. R t) E m
    → ((a : A) → Triple R Q E (f a))
    → Triple P Q E (m >>= f)
seq {P = P} {R = R} {Q = Q} {E = E} {m = m} {f = f} p q = bind-Triple P R Q E m f p q

-- The same where what holds in between depends on the value.
pub chain :
    {O A B : Type 0} {P : State O → Type 0} {R : A → State O → Type 0} {Q : B → State O → Type 0}
    {E : State O → Type 0} {m : Action O A} {f : A → Action O B}
    → Triple P R E m
    → ((a : A) → Triple (R a) Q E (f a))
    → Triple P Q E (m >>= f)
chain {R = R} {Q = Q} {E = E} {m = m} {f = f} p q = record {
  holds = λ s h. Post-bind R Q E m f s (p.holds s h) λ a t r. (q a).holds t r;
}
