-- ===== src/Tests/Glib.antt =====
-- A splitting and joining of strings that keeps to the interface `Strv`.
use platform_upstream_gumd.Common.{
  ℕ, ◌≡◌, ◌≢◌, refl, List, [], ◌∷◌, ◌++◌, Str, ◌==◌, if◌then◌else◌, All, arith,
}
use platform_upstream_gumd.StringUtils.{Free, Strv}

abbrev pub grow : ℕ → List Str → List Str
grow c [] = (c ∷ []) ∷ []
grow c (p ∷ ps) = (c ∷ p) ∷ ps

unfoldable pub pieces : ℕ → Str → List Str
pieces sep [] = [] ∷ []
pieces sep (c ∷ s) = let rest = pieces sep s in if c == sep then [] ∷ rest else grow c rest

abbrev pub split_at : ℕ → Str → List Str
split_at sep [] = []
split_at sep (c ∷ s) = pieces sep (c ∷ s)

unfoldable pub joined : ℕ → List Str → Str
joined sep [] = []
joined sep (p ∷ []) = p
joined sep (p ∷ q ∷ ps) = p ++ sep ∷ joined sep (q ∷ ps)

pieces-Free : (sep : ℕ) (p : Str) → Free sep p → pieces sep p ≡ p ∷ []
unfolding pieces
pieces-Free sep [] f = refl
pieces-Free sep (c ∷ p) f = ground (arith, pieces-Free sep p f.1)

pieces-append :
    (sep : ℕ) (p rest : Str) → Free sep p → pieces sep (p ++ sep ∷ rest) ≡ p ∷ pieces sep rest
unfolding pieces
pieces-append sep [] rest f = ground arith
pieces-append sep (c ∷ p) rest f = ground (arith, pieces-append sep p rest f.1)

pieces-joined :
    (sep : ℕ) (p : Str) (ps : List Str)
    → All (Free sep) (p ∷ ps)
    → pieces sep (joined sep (p ∷ ps)) ≡ p ∷ ps
unfolding joined
pieces-joined sep p [] f = pieces-Free sep p f.0
pieces-joined sep p (q ∷ ps) f =
    rw (pieces-append sep p (joined sep (q ∷ ps)) f.0, pieces-joined sep q ps f.1)

pub split_at-joined :
    (sep : ℕ) (p q : Str) (ps : List Str)
    → All (Free sep) (p ∷ q ∷ ps)
    → split_at sep (joined sep (p ∷ q ∷ ps)) ≡ p ∷ q ∷ ps
unfolding joined
split_at-joined sep [] q ps f = pieces-joined sep [] (q ∷ ps) f
split_at-joined sep (c ∷ p) q ps f = pieces-joined sep (c ∷ p) (q ∷ ps) f

grow-Free : (sep c : ℕ) (ps : List Str) → c ≢ sep → All (Free sep) ps → All (Free sep) (grow c ps)
grow-Free sep c [] n f = ((n, tt), tt)
grow-Free sep c (p ∷ ps) n f = ((n, f.0), f.1)

pieces-All : (sep : ℕ) (s : Str) → All (Free sep) (pieces sep s)
unfolding pieces
pieces-All sep [] = (tt, tt)
pieces-All sep (c ∷ s) = ground (arith, pieces-All sep s, grow-Free sep c (pieces sep s))

pub split_at-All : (sep : ℕ) (s : Str) → All (Free sep) (split_at sep s)
split_at-All sep [] = tt
split_at-All sep (c ∷ s) = pieces-All sep (c ∷ s)

abbrev pub byte_strv : Strv
byte_strv = record {
  split = split_at;
  join = joined;
  split-join = split_at-joined;
  split-Free = split_at-All;
}
