-- ===== src/World/Frame.antt =====
-- Which actions leave the passwd and shadow files alone.
use platform_upstream_gumd.Common.{◌≡◌, refl, ◌∙◌, Bool, true, false, if◌then◌else◌, arith}
use platform_upstream_gumd.Error.{Error, Result, ok, err}
use platform_upstream_gumd.Database.{Passwd, Spwd}
use platform_upstream_gumd.File.{DbFiles}
use platform_upstream_gumd.World.{
  Os, State, Action, resume, ◌>>=◌, pure, fail, gets, lift, require, set_self, when, lock_db,
  unlock_db, or_unlock, on_object, ScriptRun, run_scripts,
}

abbrev pub accounts : {O : Type 0} → State O → DbFiles Passwd × DbFiles Spwd
accounts s = (s.world.passwd, s.world.shadow)

pub record Keeps {O A : Type 0} (m : Action O A) : Type 0 where
  pub keeps : (s : State O) → accounts (m s).1 ≡ accounts s

module _ {O A : Type 0} where
  pub pure-Keeps : (a : A) → Keeps {O = O} (pure a)
  unfolding pure
  pure-Keeps a = record { keeps = λ s. refl }

  pub fail-Keeps : (e : Error) → Keeps {O = O} {A = A} (fail e)
  unfolding fail
  fail-Keeps e = record { keeps = λ s. refl }

  pub lift-Keeps : (r : Result A) → Keeps {O = O} (lift r)
  unfolding lift
  lift-Keeps r = record { keeps = λ s. refl }

  pub gets-Keeps : (f : State O → A) → Keeps (gets f)
  unfolding gets
  gets-Keeps f = record { keeps = λ s. refl }

  pub reads-Keeps : (f : State O → Result A) → Keeps (λ s. (f s, s))
  reads-Keeps f = record { keeps = λ s. refl }

  pub if_else-Keeps :
      (test : Bool) (m k : Action O A) → Keeps m → Keeps k → Keeps (if test then m else k)
  if_else-Keeps true m k p q = p
  if_else-Keeps false m k p q = q

module _ {O : Type 0} where
  pub set_self-Keeps : (f : O → O) → Keeps (set_self f)
  unfolding set_self
  set_self-Keeps f = record { keeps = λ s. refl }

  pub require-Keeps : (b : Bool) (e : Error) → Keeps {O = O} (require b e)
  unfolding require
  require-Keeps b e = record { keeps = λ s. refl }

  pub run_scripts-Keeps : (r : ScriptRun) → Keeps {O = O} (run_scripts r)
  unfolding run_scripts
  run_scripts-Keeps r = record { keeps = λ s. refl }

  pub when-Keeps : (b : Bool) (m : Action O (Unit {0})) → Keeps m → Keeps (when b m)
  unfolding when
  when-Keeps true m p = p
  when-Keeps false m p = record { keeps = λ s. refl }

module _ {O A B : Type 0} where
  resume-Keeps :
      (f : A → Action O B) (x : Result A × State O)
      → ((a : A) → Keeps (f a))
      → accounts (resume f x).1 ≡ accounts x.1
  resume-Keeps f (ok a, s) q = (q a).keeps s
  resume-Keeps f (err e, s) q = refl

  pub bind-Keeps :
      (m : Action O A) (f : A → Action O B) → Keeps m → ((a : A) → Keeps (f a)) → Keeps (m >>= f)
  unfolding ◌>>=◌
  bind-Keeps m f p q = record { keeps = λ s. resume-Keeps f (m s) q ∙ p.keeps s }

module _ (os : Os) {O : Type 0} where
  pub lock_db-Keeps : Keeps {O = O} (lock_db os)
  unfolding lock_db
  lock_db-Keeps = record { keeps = λ s. refl }

  pub unlock_db-Keeps : Keeps {O = O} (unlock_db os)
  unfolding unlock_db
  unlock_db-Keeps = record { keeps = λ s. refl }

  pub or_unlock-Keeps : {A : Type 0} (m : Action O A) → Keeps m → Keeps (or_unlock os m)
  unfolding or_unlock unlock_db
  or_unlock-Keeps m p = record { keeps = λ s. ground (arith, p.keeps s) }

pub on_object-Keeps :
    {O P A : Type 0} (o : P) (m : Action P A) → Keeps m → Keeps {O = O} (on_object o m)
unfolding on_object
on_object-Keeps o m p = record { keeps = λ s. p.keeps (record { self = o; world = s.world }) }

-- For `search`, as `lock_rules`.
pub ruleset frame_rules = (
  pure-Keeps, fail-Keeps, lift-Keeps, gets-Keeps, reads-Keeps, if_else-Keeps, set_self-Keeps,
  require-Keeps, run_scripts-Keeps, when-Keeps, bind-Keeps, lock_db-Keeps, unlock_db-Keeps,
  or_unlock-Keeps, on_object-Keeps,
)
