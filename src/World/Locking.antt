-- ===== src/World/Locking.antt =====
-- How actions move the lock counter: a Hoare-style family and its rules for the combinators.
use platform_upstream_gumd.Common.{ℕ, suc, ◌≡◌, refl, ◌∙◌, Bool, true, false, if◌then◌else◌, arith}
use platform_upstream_gumd.Error.{Error, Result, ok, err}
use platform_upstream_gumd.Database.{Group, Sgrp}
use platform_upstream_gumd.File.{UpdateCb}
use platform_upstream_gumd.Lock.{pwdf_lock, pwdf_unlock}
use platform_upstream_gumd.World.{
  Os, State, Action, resume, ◌>>=◌, pure, fail, gets, lift, require, set_self, when, lock_db,
  unlock_db, or_unlock, on_object, ignoring, ScriptRun, update_group_file, update_gshadow_file,
  run_scripts,
}

abbrev pub count : {O : Type 0} → State O → ℕ
count s = s.world.lock.count

-- The action leaves the counter alone.
pub record Steady {O A : Type 0} (m : Action O A) : Type 0 where
  pub steady : (s : State O) → count (m s).1 ≡ count s

abbrev pub Ends : {O A : Type 0} → ℕ → Result A × State O → Type 0
Ends n (ok a, s) = count s ≡ suc n
Ends n (err e, s) = count s ≡ n

-- From a lock that is counted `n + 1` times, the action goes on with the same count when it succeeds,
-- and has given one back when it fails.
pub record Guards {O A : Type 0} (m : Action O A) : Type 0 where
  pub guards : (n : ℕ) (s : State O) → count s ≡ suc n → Ends n (m s)

-- From such a lock, the action has given one back however it ends.
pub record Closes {O A : Type 0} (m : Action O A) : Type 0 where
  pub closes : (n : ℕ) (s : State O) → count s ≡ suc n → count (m s).1 ≡ n

module _ {O A : Type 0} where
  pub pure-Steady : (a : A) → Steady {O = O} (pure a)
  unfolding pure
  pure-Steady a = record { steady = λ s. refl }

  pub lift-Steady : (r : Result A) → Steady {O = O} (lift r)
  unfolding lift
  lift-Steady r = record { steady = λ s. refl }

  pub fail-Steady : (e : Error) → Steady {O = O} {A = A} (fail e)
  unfolding fail
  fail-Steady e = record { steady = λ s. refl }

  pub gets-Steady : (f : State O → A) → Steady (gets f)
  unfolding gets
  gets-Steady f = record { steady = λ s. refl }

  pub gets-Guards : (f : State O → A) → Guards (gets f)
  unfolding gets
  gets-Guards f = record { guards = λ n s h. h }

module _ {O : Type 0} where
  pub set_self-Steady : (f : O → O) → Steady (set_self f)
  unfolding set_self
  set_self-Steady f = record { steady = λ s. refl }

  pub set_self-Guards : (f : O → O) → Guards (set_self f)
  unfolding set_self
  set_self-Guards f = record { guards = λ n s h. h }

  pub require-Steady : (b : Bool) (e : Error) → Steady {O = O} (require b e)
  unfolding require
  require-Steady b e = record { steady = λ s. refl }

  pub run_scripts-Guards : (r : ScriptRun) → Guards {O = O} (run_scripts r)
  unfolding run_scripts
  run_scripts-Guards r = record { guards = λ n s h. h }

  pub when-Steady : (b : Bool) (m : Action O (Unit {0})) → Steady m → Steady (when b m)
  unfolding when
  when-Steady true m g = g
  when-Steady false m g = record { steady = λ s. refl }

  pub when-Guards : (b : Bool) (m : Action O (Unit {0})) → Guards m → Guards (when b m)
  unfolding when
  when-Guards true m g = g
  when-Guards false m g = record { guards = λ n s h. h }

pub if-Steady :
    {O A : Type 0} (test : Bool) (m k : Action O A)
    → Steady m
    → Steady k
    → Steady (if test then m else k)
if-Steady true m k p q = p
if-Steady false m k p q = q

module _ {O A B : Type 0} where
  resume-Steady :
      (f : A → Action O B) (k : ℕ) (x : Result A × State O)
      → count x.1 ≡ k
      → ((a : A) → Steady (f a))
      → count (resume f x).1 ≡ k
  resume-Steady f k (ok a, s) h q = (q a).steady s ∙ h
  resume-Steady f k (err e, s) h q = h

  resume-Closes :
      (f : A → Action O B) (n : ℕ) (x : Result A × State O)
      → Ends n x
      → ((a : A) → Closes (f a))
      → count (resume f x).1 ≡ n
  resume-Closes f n (ok a, s) h q = (q a).closes n s h
  resume-Closes f n (err e, s) h q = h

  pub bind-Steady :
      (m : Action O A) (f : A → Action O B) → Steady m → ((a : A) → Steady (f a)) → Steady (m >>= f)
  unfolding ◌>>=◌
  bind-Steady m f p q = record { steady = λ s. resume-Steady f (count s) (m s) (p.steady s) q }

  pub bind-Closes :
      (m : Action O A) (f : A → Action O B) → Guards m → ((a : A) → Closes (f a)) → Closes (m >>= f)
  unfolding ◌>>=◌
  bind-Closes m f p q = record { closes = λ n s h. resume-Closes f n (m s) (p.guards n s h) q }

  resume-Guards :
      (f : A → Action O B) (n : ℕ) (x : Result A × State O)
      → Ends n x
      → ((a : A) → Guards (f a))
      → Ends n (resume f x)
  resume-Guards f n (ok a, s) h q = (q a).guards n s h
  resume-Guards f n (err e, s) h q = h

  pub bind-Guards :
      (m : Action O A) (f : A → Action O B) → Guards m → ((a : A) → Guards (f a)) → Guards (m >>= f)
  unfolding ◌>>=◌
  bind-Guards m f p q = record { guards = λ n s h. resume-Guards f n (m s) (p.guards n s h) q }

  resume_closed :
      (f : A → Action O B) (n : ℕ) (x : Result A × State O)
      → count x.1 ≡ n
      → ((a : A) → Steady (f a))
      → count (resume f x).1 ≡ n
  resume_closed f n (ok a, s) h q = (q a).steady s ∙ h
  resume_closed f n (err e, s) h q = h

  pub bind_closed :
      (m : Action O A) (f : A → Action O B) → Closes m → ((a : A) → Steady (f a)) → Closes (m >>= f)
  unfolding ◌>>=◌
  bind_closed m f p q = record { closes = λ n s h. resume_closed f n (m s) (p.closes n s h) q }

pub on_object-Steady :
    {O P A : Type 0} (o : P) (m : Action P A) → Steady m → Steady {O = O} (on_object o m)
unfolding on_object
on_object-Steady o m p = record { steady = λ s. p.steady (record { self = o; world = s.world }) }

pub ignoring-Steady : {O A : Type 0} (m : Action O A) → Steady m → Steady (ignoring m)
unfolding ignoring
ignoring-Steady m p = record { steady = λ s. p.steady s }

-- An action that leaves the counter alone and does not fail.
pub ignoring-Guards : {O A : Type 0} (m : Action O A) → Steady m → Guards (ignoring m)
unfolding ignoring
ignoring-Guards m p = record { guards = λ n s h. p.steady s ∙ h }

module _ (os : Os) {O : Type 0} where
  pub or_unlock-Guards : {A : Type 0} (m : Action O A) → Steady m → Guards (or_unlock os m)
  unfolding or_unlock unlock_db pwdf_unlock
  or_unlock-Guards m p = record { guards = λ n s h. ground (arith, p.steady s) }

  pub unlock_db-Closes : Closes {O = O} (unlock_db os)
  unfolding unlock_db pwdf_unlock
  unlock_db-Closes = record { closes = λ n s h. ground arith }

  pub update_group_file-Steady : (cb : UpdateCb Group) → Steady {O = O} (update_group_file os cb)
  unfolding update_group_file
  update_group_file-Steady cb = record { steady = λ s. refl }

  pub update_gshadow_file-Steady : (cb : UpdateCb Sgrp) → Steady {O = O} (update_gshadow_file os cb)
  unfolding update_gshadow_file
  update_gshadow_file-Steady cb = record { steady = λ s. refl }

  pub lock_db-Ends : (s : State O) → Ends (count s) (lock_db os s)
  unfolding lock_db pwdf_lock
  lock_db-Ends s = ground arith

  -- An operation that locks and then closes leaves the counter as it found it, also if it cannot
  -- lock.
  pub lock_db-Steady :
      {A : Type 0} (m : Unit {0} → Action O A)
      → ((u : Unit {0}) → Closes (m u))
      → Steady (lock_db os >>= m)
  unfolding ◌>>=◌
  lock_db-Steady m c = record {
    steady = λ s. resume-Closes m (count s) (lock_db os s) (lock_db-Ends s) c;
  }

-- For `search`, by which the actions of an operation are gone through one by one.
pub ruleset lock_rules = (
  pure-Steady, if-Steady, fail-Steady, lift-Steady, gets-Steady, when-Steady, gets-Guards,
  set_self-Steady, set_self-Guards, require-Steady, run_scripts-Guards, when-Guards, bind-Steady,
  bind-Closes, bind_closed, or_unlock-Guards, unlock_db-Closes, lock_db-Steady, on_object-Steady,
  ignoring-Steady, ignoring-Guards,
)
