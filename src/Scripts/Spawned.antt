-- ===== src/Scripts/Spawned.antt =====
-- src/common/gum-utils.c: the second loop of `_run_scripts`, which runs the scripts.
use platform_upstream_gumd.Common.{
  true, false, List, [], ◌∷◌, ◌++◌, Str, ◌≡◌, sym, ap, ◌∙◌, inl, inr, Bool-cases,
}
use mathlib.Core.List.{
  map, Mem, Sublist, append-nil, append_assoc, Mem-prop, mem-cons, mem-cons_of_mem,
  eq-or-mem_of_mem-cons, not-mem-nil,
}
use mathlib.Core.List.Sublist
use mathlib.Core.Logic.Or
use platform_upstream_gumd.Scripts.{Argv, Glib, run_script, run_each}

module _ (glib : Glib) where
  -- What the second loop adds to the commands `ran`: each script at most once, in order, each that
  -- is always there, and each only if it is there after what has run before it.
  abbrev pub Spawned : Argv → List Str → List Argv → List Argv → Type 0
  Spawned args scripts ran more =
      Sublist more (map (λ s. s ∷ args) scripts)
      × ((s : Str)
          → Mem s scripts
          → ((ran : List Argv) → glib.present ran s ≡ true)
          → Mem (s ∷ args) more)
      × ((before after : List Argv) (s : Str)
          → more ≡ before ++ ((s ∷ args) ∷ after)
          → glib.present (ran ++ before) s ≡ true)

  not-nil-append : {A : Type 0} (before after : List A) (x : A) → ¬ ([] ≡ before ++ (x ∷ after))
  not-nil-append [] after x e = absurd (cc e)
  not-nil-append (b ∷ before) after x e = absurd (cc e)

  present-started :
      {args : Argv} {script : Str} {ran more : List Argv}
      → glib.present ran script ≡ true
      → ((before after : List Argv) (s : Str)
          → more ≡ before ++ ((s ∷ args) ∷ after)
          → glib.present ((ran ++ ((script ∷ args) ∷ [])) ++ before) s ≡ true)
      → (before after : List Argv) (s : Str)
      → (script ∷ args) ∷ more ≡ before ++ ((s ∷ args) ∷ after)
      → glib.present (ran ++ before) s ≡ true
  present-started {ran} here later [] after s e = cc (here, append-nil ran, e)
  present-started {args} {script} {ran} here later (b ∷ before) after s e =
      cc (later before after s (cc e), append_assoc ran ((script ∷ args) ∷ []) before, e)

  Spawned-started :
      {args : Argv} {script : Str} {rest : List Str} {ran more : List Argv}
      → glib.present ran script ≡ true
      → Spawned args rest (ran ++ ((script ∷ args) ∷ [])) more
      → Spawned args (script ∷ rest) ran ((script ∷ args) ∷ more)
  Spawned-started {args} {script} here (sub, all, later) = (
    Sublist.cons-cons (script ∷ args) sub,
    λ s m there.
        Or.elim Mem-prop (eq-or-mem_of_mem-cons m) (λ e. mem-cons.1 (Or.inl (ap (λ x. x ∷ args) e)))
          (λ m. mem-cons_of_mem _ (all s m there)),
    present-started here later,
  )

  Spawned-missing :
      {args : Argv} {script : Str} {rest : List Str} {more ran : List Argv}
      → glib.present ran script ≡ false
      → Spawned args rest ran more
      → Spawned args (script ∷ rest) ran more
  Spawned-missing {args} {script} {ran} gone (sub, all, later) = (
    Sublist.cons (script ∷ args) sub,
    λ s m here.
        Or.elim Mem-prop (eq-or-mem_of_mem-cons m)
          (λ e. absurd (cc (here ran, ap (glib.present ran) e ∙ gone))) (λ m. all s m here),
    later,
  )

  pub run_each-Spawned :
      (args : Argv) (scripts : List Str) (ran : List Argv)
      → (more : List Argv) × (run_each glib args scripts ran ≡ ran ++ more)
        × Spawned args scripts ran more
  unfolding run_each run_script
  run_each-Spawned args [] ran = (
    [],
    sym (append-nil ran),
    (
      Sublist.refl [],
      λ s m _. absurd (not-mem-nil m),
      λ before after s e. absurd (not-nil-append before after _ e),
    ),
  )
  run_each-Spawned args (script ∷ rest) ran = elim (Bool-cases (glib.present ran script)) [
    | inl p ↦
        let (more, e, spawned) = run_each-Spawned args rest (ran ++ ((script ∷ args) ∷ [])) in
        (
          (script ∷ args) ∷ more,
          rw p (e ∙ append_assoc ran ((script ∷ args) ∷ []) more),
          Spawned-started p spawned,
        )
    | inr p ↦
        let (more, e, spawned) = run_each-Spawned args rest ran in
        (more, rw p e, Spawned-missing p spawned)
  ]
