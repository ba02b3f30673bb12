-- ===== src/Common/Text.antt =====
-- A C string is the list of its bytes, without the final NUL; `gchar *` that may be NULL is an
-- `Option`.
use Prim.Native.Char.{code}
use Prim.Native.String.{String}
use Prim.Native.Nat.{ℕ}
use mathlib.Core.Path.{◌≡◌, refl}
use mathlib.Core.Logic.{◌↔◌}
use mathlib.Core.Bool.{Bool, true, false, ◌&&◌}
use mathlib.Core.Option.{Option, none, some}
use mathlib.Core.List.{List, [], ◌∷◌}
use native.Mathlib.Omega.{arith}
use platform_upstream_gumd.Common.Tests.{◌==◌}

abbrev pub Str : Type 0
Str = List ℕ

-- The bytes of an ASCII literal.
abbrev pub codes : String → Str
codes String.[] = []
codes (String.◌∷◌ c s) = code c ∷ codes s

-- `strcmp (s, t) == 0`
unfoldable pub str_eq : Str → Str → Bool
str_eq [] [] = true
str_eq (a ∷ s) (b ∷ t) = a == b && str_eq s t
str_eq _ _ = false

pub str_eq_iff : (s t : Str) → (str_eq s t ≡ true) ↔ (s ≡ t)
unfolding str_eq
str_eq_iff [] [] = ((λ _. refl), (λ _. refl))
str_eq_iff [] (b ∷ t) = ground arith
str_eq_iff (a ∷ s) [] = ground arith
str_eq_iff (a ∷ s) (b ∷ t) = ground (arith, str_eq_iff s t)

-- `g_strcmp0 (s, t) == 0`: NULL equals NULL only.
unfoldable pub strcmp0_eq : Option Str → Option Str → Bool
unfolding str_eq
strcmp0_eq none none = true
strcmp0_eq (some s) (some t) = str_eq s t
strcmp0_eq _ _ = false

pub strcmp0_eq_iff : (s t : Option Str) → (strcmp0_eq s t ≡ true) ↔ (s ≡ t)
unfolding strcmp0_eq
strcmp0_eq_iff none none = ((λ _. refl), (λ _. refl))
strcmp0_eq_iff none (some t) = ground arith
strcmp0_eq_iff (some s) none = ground arith
strcmp0_eq_iff (some s) (some t) = ground (arith, str_eq_iff s t)
