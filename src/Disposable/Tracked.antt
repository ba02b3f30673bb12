-- ===== src/Disposable/Tracked.antt =====
-- While the timeout is set only where no timer runs, the object knows its one source.
use platform_upstream_gumd.Common.{
  ℕ, suc, ◌≡◌, ◌≢◌, ◌⊎◌, inl, inr, refl, sym, ap, ◌∙◌, Bool, true, false, List, [], ◌∷◌, ◌++◌,
  arith,
}
use platform_upstream_gumd.Disposable.{
  Source, Disposable, without_source, remove_timer, unref, dispatch, with_source, set_auto_dispose,
  set_timeout, delete_later_of, Step, sets_auto_dispose, sets_timeout, deletes_later, refs_more,
  unrefs, dispatches, Reached, created, after_step,
}

-- No source and no id, or one source with the id, which is an idle one exactly if the object is to be
-- deleted.
abbrev pub OneSource : Disposable → Type 0
OneSource d =
    (d.timer_id ≡ 0) × (d.sources ≡ [])
    ⊎ (d.timer_id ≢ 0)
      × ((idle : Bool) × (d.sources ≡ record { id = d.timer_id; idle = idle } ∷ [])
          × (idle ≡ d.delete_later))

-- The id is that of the one source there is; but the id of an object that is to be deleted may be
-- left over from a source that has gone. A timer runs only without keepers, and not at all for an object
-- to be deleted; and it does run, where there is a timeout, as the idle source of an object to be deleted
-- is there, until the object first emits `disposing` or has no references left; then no source is
-- left either.
abbrev pub Tracked : Disposable → Type 0
Tracked d =
    (OneSource d ⊎ (d.delete_later ≡ true) × (d.sources ≡ []))
    × ((d.delete_later ≡ true) ⊎ (d.keep_obj_counter ≡ 0) ⊎ (d.timer_id ≡ 0))
    × ((d.delete_later ≡ true)
        ⊎ (d.keep_obj_counter ≢ 0)
        ⊎ (d.timeout ≡ 0)
        ⊎ (d.emitted ≢ 0)
        ⊎ (d.refs ≡ 0)
        ⊎ (d.timer_id ≢ 0))
    × ((d.delete_later ≡ false) ⊎ (d.sources ≢ []) ⊎ (d.emitted ≢ 0) ⊎ (d.refs ≡ 0))
    × ((d.refs ≢ 0) ⊎ (d.sources ≡ []))

-- Removing the timer leaves no source, and changes nothing else but its id.
removed :
    (d : Disposable)
    → OneSource d ⊎ (d.delete_later ≡ true) × (d.sources ≡ [])
    → ((remove_timer d).sources ≡ [])
      × ((remove_timer d).timer_id ≡ 0)
      × ((remove_timer d).refs ≡ d.refs)
unfolding remove_timer without_source
removed d h = ground arith

unref-Tracked : (d : Disposable) → d.refs ≢ 0 → Tracked d → Tracked (unref d)
unfolding unref remove_timer without_source
unref-Tracked d r h = ground (arith, removed d)

module _ (new_id : List Source → ℕ) (positive : (sources : List Source) → new_id sources ≢ 0) where
  set_auto_dispose-Tracked :
      (dispose : Bool) (d : Disposable)
      → d.refs ≢ 0
      → Tracked d
      → Tracked (set_auto_dispose new_id dispose d)
  unfolding set_auto_dispose with_source remove_timer without_source
  set_auto_dispose-Tracked dispose d r h = ground (arith, positive d.sources)

  set_timeout-Tracked :
      (t : ℕ) (d : Disposable)
      → d.refs ≢ 0
      → d.timer_id ≡ 0
      → Tracked d
      → Tracked (set_timeout new_id t d)
  unfolding set_timeout with_source remove_timer without_source
  set_timeout-Tracked t d r e h = ground (arith, positive d.sources)

  delete_later_of-Tracked :
      (d : Disposable) → d.refs ≢ 0 → Tracked d → Tracked (delete_later_of new_id d)
  unfolding delete_later_of with_source remove_timer without_source
  delete_later_of-Tracked d r h = ground (arith, positive [], removed d)

-- A source of a list of one.
only_source : (x s : Source) (before after : List Source) → x ∷ [] ≡ before ++ s ∷ after → s ≡ x
only_source x s [] after e = ground arith
only_source x s (b ∷ []) after e = ground arith
only_source x s (b ∷ c ∷ before) after e = ground arith

no_source : (s : Source) (before after : List Source) → [] ≡ before ++ s ∷ after → ⊥
no_source s [] after e = ground arith
no_source s (b ∷ before) after e = ground arith

timer_dispatched :
    (d : Disposable) (id : ℕ)
    → d.refs ≢ 0
    → Tracked d
    → d.timer_id ≡ id
    → d.sources ≡ record { id = id; idle = false } ∷ []
    → Tracked (dispatch (record { id = id; idle = false }) d)
unfolding dispatch remove_timer without_source
timer_dispatched d id r h e f = ground arith

idle_dispatched :
    (d : Disposable) (id : ℕ)
    → d.refs ≢ 0
    → d.delete_later ≡ true
    → d.timer_id ≡ id
    → d.sources ≡ record { id = id; idle = true } ∷ []
    → Tracked (dispatch (record { id = id; idle = true }) d)
unfolding dispatch remove_timer without_source
idle_dispatched d id r h e f = ground arith

one_dispatched :
    (s : Source) (d : Disposable)
    → d.refs ≢ 0
    → Tracked d
    → (idle : Bool) → d.timer_id ≢ 0
    → d.sources ≡ record { id = d.timer_id; idle = idle } ∷ []
    → idle ≡ d.delete_later
    → s ≡ record { id = d.timer_id; idle = idle }
    → Tracked (dispatch s d)
one_dispatched s d r h false n f k e = rw e (timer_dispatched d d.timer_id r h refl f)
one_dispatched s d r h true n f k e = rw e (idle_dispatched d d.timer_id r (sym k) refl f)

dispatch-Tracked :
    (s : Source) (before after : List Source) (d : Disposable)
    → d.sources ≡ before ++ s ∷ after
    → d.refs ≢ 0
    → Tracked d
    → Tracked (dispatch s d)
dispatch-Tracked s before after d e r h = elim h.0 [
  | inl (inl one) ↦ absurd (no_source s before after (sym one.1 ∙ e))
  | inl (inr (n, (idle, f, k))) ↦
      one_dispatched s d r h idle n f k (only_source _ s before after (sym f ∙ e))
  | inr gone ↦ absurd (no_source s before after (sym gone.1 ∙ e))
]

module _ (new_id : List Source → ℕ) (positive : (sources : List Source) → new_id sources ≢ 0) where
  Step-Tracked : {d e : Disposable} → Step new_id d e → Tracked d → Tracked e
  Step-Tracked {d = d} (sets_auto_dispose dispose r) h =
      set_auto_dispose-Tracked new_id positive dispose d r h
  Step-Tracked {d = d} (sets_timeout timeout r e) h =
      set_timeout-Tracked new_id positive timeout d r e h
  Step-Tracked {d = d} (deletes_later r) h = delete_later_of-Tracked new_id positive d r h
  Step-Tracked {d = d} (refs_more r) h = ground arith
  Step-Tracked {d = d} (unrefs r) h = unref-Tracked d r h
  Step-Tracked {d = d} (dispatches s before after e r) h = dispatch-Tracked s before after d e r h

  -- In every state that is reached there is at most one source, with the id that the object has, a timer or,
  -- if the object is to be deleted, an idle one; no timer runs while the object is kept; until it first
  -- emits `disposing`, a timer runs where there is a timeout and no keeper, and the idle source is
  -- there where it is to be deleted; and no source is left once it has been disposed of. Where an
  -- object to be deleted has no source any more, its id may be left over.
  pub Reached-Tracked : {d : Disposable} → Reached new_id d → Tracked d
  Reached-Tracked created = ground arith
  Reached-Tracked (after_step r s) = Step-Tracked s (Reached-Tracked r)

timer_ends :
    (d : Disposable)
    → d.refs ≡ 1
    → d.sources ≡ record { id = d.timer_id; idle = false } ∷ []
    → let e = dispatch (record { id = d.timer_id; idle = false }) d in
      (e.refs ≡ 0) × (e.sources ≡ []) × (e.emitted ≡ suc d.emitted)
unfolding dispatch remove_timer without_source
timer_ends d r f = ground arith

-- The one timer of such an object.
timer_runs :
    (d : Disposable)
    → Tracked d
    → d.delete_later ≡ false
    → d.keep_obj_counter ≡ 0
    → d.timeout ≢ 0
    → d.emitted ≡ 0
    → d.refs ≡ 1
    → d.sources ≡ record { id = d.timer_id; idle = false } ∷ []
timer_runs d h l k t e r = ground arith

-- In every state that is reached, an object that has a timeout, one reference, no keeper and no request
-- to be deleted, and that has not emitted `disposing` yet, has one source; and when the main loop
-- dispatches that, the object emits `disposing` and is disposed of, and no source is left.
pub Reached-disposed :
    (new_id : List Source → ℕ)
    → ((sources : List Source) → new_id sources ≢ 0)
    → {d : Disposable} → Reached new_id d
    → d.delete_later ≡ false
    → d.keep_obj_counter ≡ 0
    → d.timeout ≢ 0
    → d.emitted ≡ 0
    → d.refs ≡ 1
    → (s : Source) × (d.sources ≡ s ∷ [])
      × ((dispatch s d).refs ≡ 0)
      × ((dispatch s d).sources ≡ [])
      × ((dispatch s d).emitted ≡ 1)
Reached-disposed new_id positive {d = d} reached l k t e r =
    let f = timer_runs d (Reached-Tracked new_id positive reached) l k t e r in
    let g = timer_ends d r f in (_, f, g.0, g.1, g.2 ∙ ap suc e)
