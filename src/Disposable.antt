-- ===== src/Disposable.antt =====
-- src/common/gum-disposable.c: an object that is disposed of after a time without use. The main loop is
-- GLib's: of it the model has the sources that call back into the object, and the ids of new
-- sources, which are never 0, are a parameter. Debug messages have no part in the model.
pub mod Tracked
pub mod Retimed
use platform_upstream_gumd.Common.{
  ℕ, suc, ◌+◌, ◌-◌, ◌≡◌, ◌≢◌, Bool, true, false, not, ◌&&◌, List, [], ◌∷◌, ◌++◌, ◌==◌,
  if◌then◌else◌,
}

-- A source calls `_auto_dispose` when the loop is idle, or `_timer_dispose` after the timeout.
pub record Source : Type 0 where
  pub id : ℕ
  pub idle : Bool

-- `GumDisposablePrivate`, the references to the object (none are left of one that has been disposed
-- of), the sources that the main loop has for it, and how often it has emitted `disposing`.
pub record Disposable : Type 0 where
  pub timeout : ℕ
  pub keep_obj_counter : ℕ
  pub timer_id : ℕ
  pub delete_later : Bool
  pub refs : ℕ
  pub sources : List Source
  pub emitted : ℕ

-- `gum_disposable_init`
abbrev pub new_disposable : Disposable
new_disposable = record {
  timeout = 0;
  keep_obj_counter = 0;
  timer_id = 0;
  delete_later = false;
  refs = 1;
  sources = [];
  emitted = 0;
}

-- `g_source_remove`
unfoldable pub without_source : ℕ → List Source → List Source
without_source id [] = []
without_source id (s ∷ rest) =
    let rest' = without_source id rest in if s.id == id then rest' else s ∷ rest'

unfoldable pub remove_timer : Disposable → Disposable
unfolding without_source
remove_timer d =
    if not (d.timer_id == 0)
    then record d { sources = without_source d.timer_id d.sources; timer_id = 0 }
    else d

-- `g_object_unref`, with `_dispose` on the last reference.
unfoldable pub unref : Disposable → Disposable
unfolding remove_timer
unref d =
    let last = remove_timer (record d { refs = 0 }) in
    if d.refs == 1 then last else record d { refs = d.refs - 1 }

-- `_auto_dispose`
unfoldable pub auto_dispose : Disposable → Disposable
unfolding unref
auto_dispose d = unref (record d { emitted = d.emitted + 1 })

unfoldable pub timer_dispose : Disposable → Disposable
unfolding auto_dispose
timer_dispose d = auto_dispose (record d { timer_id = 0 })

-- The main loop calls a source back, which returns FALSE, so that the loop removes it.
unfoldable pub dispatch : Source → Disposable → Disposable
unfolding timer_dispose without_source
dispatch s d =
    let d' = if s.idle then auto_dispose d else timer_dispose d in
    record d' { sources = without_source s.id d'.sources }

-- `gum_disposable_get_auto_dispose`
unfoldable pub get_auto_dispose : Disposable → Bool
get_auto_dispose d = d.keep_obj_counter == 0

module _ (new_id : List Source → ℕ) where
  -- `g_timeout_add_seconds` and `g_idle_add`
  unfoldable pub with_source : Bool → Disposable → Disposable
  with_source idle d = record d {
    timer_id = new_id d.sources;
    sources = record { id = new_id d.sources; idle = idle } ∷ d.sources;
  }

  unfoldable pub update_timer : Disposable → Disposable
  unfolding remove_timer with_source
  update_timer d =
      if d.delete_later
      then d
      else if d.keep_obj_counter == 0
      then if not (d.timeout == 0) then with_source false d else d
      else remove_timer d

  unfoldable pub set_auto_dispose : Bool → Disposable → Disposable
  unfolding update_timer
  set_auto_dispose dispose d =
      if d.keep_obj_counter == 0 && dispose
      then d
      else update_timer (record d {
        keep_obj_counter = if not dispose then d.keep_obj_counter + 1 else d.keep_obj_counter - 1;
      })

  unfoldable pub set_timeout : ℕ → Disposable → Disposable
  unfolding update_timer
  set_timeout timeout d =
      if d.timeout == timeout then d else update_timer (record d { timeout = timeout })

  unfoldable pub delete_later_of : Disposable → Disposable
  unfolding remove_timer with_source
  delete_later_of d = record (with_source true (remove_timer d)) { delete_later = true }

  -- What a client or the main loop does with an object that is there; the timeout is set while no timer
  -- runs.
  pub data Step (d : Disposable) : Disposable → Type 0 where
    sets_auto_dispose : (dispose : Bool) → d.refs ≢ 0 → Step d (set_auto_dispose dispose d)
    sets_timeout : (timeout : ℕ) → d.refs ≢ 0 → d.timer_id ≡ 0 → Step d (set_timeout timeout d)
    deletes_later : d.refs ≢ 0 → Step d (delete_later_of d)
    refs_more : d.refs ≢ 0 → Step d (record d { refs = suc d.refs })
    unrefs : d.refs ≢ 0 → Step d (unref d)
    dispatches :
        (s : Source) (before after : List Source)
        → d.sources ≡ before ++ s ∷ after
        → d.refs ≢ 0
        → Step d (dispatch s d)

  pub data Reached : Disposable → Type 0 where
    created : Reached new_disposable
    after_step : {d e : Disposable} → Reached d → Step d e → Reached e
