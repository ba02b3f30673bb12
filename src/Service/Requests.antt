-- ===== src/Service/Requests.antt =====
-- src/daemon/dbus/gumd-dbus-user-adapter.c, gumd-dbus-group-adapter.c: the requests that an adapter
-- handles. It is kept meanwhile, and it is deleted after a successful deletion of its object.
use platform_upstream_gumd.Common.{
  ℕ, ◌≡◌, ◌≢◌, refl, ◌∙◌, subst, Bool, true, false, List, ◌∷◌, Str, arith,
}
use platform_upstream_gumd.Error.{Error, Result, ok, err}
use platform_upstream_gumd.Objects.{put}
use platform_upstream_gumd.Disposable.{
  Source, Disposable, set_auto_dispose, delete_later_of, remove_timer, with_source,
}
use platform_upstream_gumd.Service.{Kind, Exports, Peer, Service}
use platform_upstream_gumd.Service.Cached.{Entered, entry, later}

-- What the caller is sent: an id, or that it is done, or an error.
pub data Answer : Type 0 where
  added : ℕ → Answer
  done : Answer
  error : Error → Answer

set_auto_dispose-back :
    (new_id : List Source → ℕ) (d : Disposable)
    → let e = set_auto_dispose new_id true (set_auto_dispose new_id false d) in
      (e.keep_obj_counter ≡ d.keep_obj_counter)
      × (e.refs ≡ d.refs)
      × (e.delete_later ≡ d.delete_later)
unfolding set_auto_dispose with_source remove_timer
set_auto_dispose-back new_id d = ground arith

module _ {D : Type 0} (exports : Exports) where
  unfoldable pub with_disposable : ℕ → (Disposable → Disposable) → Service D → Service D
  with_disposable a f s = record s {
    adapters =
        put a (record (s.adapters a) { disposable = f (s.adapters a).disposable }) s.adapters;
  }

  abbrev pub kept_at : ℕ → Bool → Service D → Service D
  kept_at a dispose = with_disposable a (set_auto_dispose exports.new_id dispose)

  -- A request on the object of the adapter.
  unfoldable pub handle :
      {A : Type 0} → ℕ → (ℕ → D → Result A × D) → (A → D → Answer) → Service D → Answer × Service D
  unfolding with_disposable
  handle a call reply s =
      let s1 = kept_at a false s in
      let (r, d) = call (s1.adapters a).object s1.daemon in
      let s2 = kept_at a true (record s1 { daemon = d }) in
      (elim r [ ok x ↦ reply x d | err e ↦ error e ], s2)

  -- `delete successful so not needed anymore`
  unfoldable pub deletion_done : {A : Type 0} → ℕ → Result A → Service D → Answer × Service D
  unfolding with_disposable
  deletion_done a (ok x) s = (done, with_disposable a (delete_later_of exports.new_id) s)
  deletion_done a (err e) s = (error e, s)

  unfoldable pub handle_deletion :
      {A : Type 0} → ℕ → (ℕ → D → Result A × D) → Service D → Answer × Service D
  unfolding deletion_done
  handle_deletion a call s =
      let s1 = kept_at a false s in
      let (r, d) = call (s1.adapters a).object s1.daemon in
      let s2 = kept_at a true (record s1 { daemon = d }) in deletion_done a r s2

  -- Keepers, references and the mark of the object at an address are as before.
  pub record Back (a : ℕ) (s t : Service D) : Type 0 where
    pub kept :
        (t.adapters a).disposable.keep_obj_counter ≡ (s.adapters a).disposable.keep_obj_counter
    pub refs : (t.adapters a).disposable.refs ≡ (s.adapters a).disposable.refs
    pub marked : (t.adapters a).disposable.delete_later ≡ (s.adapters a).disposable.delete_later
    pub others : (b : ℕ) → b ≢ a → t.adapters b ≡ s.adapters b

  with_daemon-Back :
      (a : ℕ) (d : D) (s : Service D)
      → Back a s (kept_at a true (record (kept_at a false s) { daemon = d }))
  unfolding with_disposable
  with_daemon-Back a d s =
      let back = set_auto_dispose-back exports.new_id (s.adapters a).disposable in
      record {
        kept = ground (arith, back);
        refs = ground (arith, back);
        marked = ground (arith, back);
        others = λ b n. ground (arith, n);
      }

  -- After a request the adapter has its keepers, references and mark as before, and no other adapter has
  -- changed.
  pub handle-Back :
      {A : Type 0} (a : ℕ) (call : ℕ → D → Result A × D) (reply : A → D → Answer) (s : Service D)
      → Back a s (handle a call reply s).1
  unfolding handle
  handle-Back a call reply s =
      with_daemon-Back a (call ((kept_at a false s).adapters a).object s.daemon).1 s

  -- The adapter that is to be deleted is given to nobody any more.
  marked-NotEntered :
      (k : Kind D) (name : Str) (id a : ℕ) (s : Service D) (l : List Peer)
      → (s.adapters a).disposable.delete_later ≡ true
      → ¬ Entered exports k name id a s l
  marked-NotEntered k name id a s l m (entry _ _ _ unmarked) = cc
  marked-NotEntered k name id a s _ m (later {rest = rest} e) =
      marked-NotEntered k name id a s rest m e

  pub kept-object :
      (a : ℕ) (t : Service D) → ((kept_at a false t).adapters a).object ≡ (t.adapters a).object
  unfolding with_disposable
  kept-object a t = ground arith

  -- What comes of a deletion, by what the daemon has given: the main loop has an idle source that disposes
  -- of the adapter, which no lookup gives any more; or the error is passed on, and the adapter is as before.
  pub data Deletion {A : Type 0} (k : Kind D) (a : ℕ) (s : Service D) (r : Answer) (t : Service D)
      : Result A → Type 0 where
    deleted :
        (x : A)
        → r ≡ done
        → (t.adapters a).disposable.delete_later ≡ true
        → ((name : Str) (id : ℕ) (l : List Peer) → ¬ Entered exports k name id a t l)
        → (rest : List Source)
        → (t.adapters a).disposable.sources
          ≡ record { id = (t.adapters a).disposable.timer_id; idle = true } ∷ rest
        → ((b : ℕ) → b ≢ a → t.adapters b ≡ s.adapters b)
        → Deletion k a s r t (ok x)
    not_deleted : (e : Error) → r ≡ error e → Back a s t → Deletion k a s r t (err e)

  marked_with_source :
      (a : ℕ) (s : Service D)
      → let d = ((with_disposable a (delete_later_of exports.new_id) s).adapters a).disposable in
        (d.delete_later ≡ true)
        × (d.sources
            ≡ record { id = d.timer_id; idle = true }
              ∷ (remove_timer (s.adapters a).disposable).sources)
  unfolding with_disposable delete_later_of with_source
  marked_with_source a s = ground arith

  marked-others :
      (a b : ℕ) (t : Service D)
      → b ≢ a
      → (with_disposable a (delete_later_of exports.new_id) t).adapters b ≡ t.adapters b
  unfolding with_disposable
  marked-others a b t n = ground (arith, n)

  done-Deletion :
      {A : Type 0} (k : Kind D) (a : ℕ) (r : Result A) (s t : Service D)
      → Back a s t
      → Deletion k a s (deletion_done a r t).0 (deletion_done a r t).1 r
        × ((deletion_done a r t).1.daemon ≡ t.daemon)
  unfolding deletion_done with_disposable
  done-Deletion k a (err e) s t b = (not_deleted e refl b, refl)
  done-Deletion k a (ok x) s t b =
      let marked = marked_with_source a t in
      (
        deleted x refl marked.0 (λ name id l. marked-NotEntered k name id a _ l marked.0)
            (remove_timer (t.adapters a).disposable).sources marked.1
            (λ c n. marked-others a c t n ∙ b.others c n),
        refl,
      )

  -- What a deletion comes to, with what the daemon gives for the adapter's object: the daemon is the one after
  -- that call. Where the call has succeeded, the caller is told so, the adapter is marked, no lookup
  -- gives it any more, and the main loop has an idle source that disposes of it; where it has failed,
  -- its error is passed on, and the adapter has its keepers, references and mark as before. No other
  -- adapter has changed.
  pub handle_deletion-Deletion :
      {A : Type 0} (k : Kind D) (a : ℕ) (call : ℕ → D → Result A × D) (s : Service D)
      → let given = call (s.adapters a).object s.daemon in
        Deletion k a s (handle_deletion a call s).0 (handle_deletion a call s).1 given.0
        × ((handle_deletion a call s).1.daemon ≡ given.1)
  unfolding handle_deletion with_disposable
  handle_deletion-Deletion k a call s =
      let (r, d) = call ((kept_at a false s).adapters a).object s.daemon in
      subst
        (λ o.
          Deletion k a s (handle_deletion a call s).0 (handle_deletion a call s).1
            (call o s.daemon).0
          × ((handle_deletion a call s).1.daemon ≡ (call o s.daemon).1))
        (kept-object a s)
        (done-Deletion k a r s (kept_at a true (record (kept_at a false s) { daemon = d }))
          (with_daemon-Back a d s))
