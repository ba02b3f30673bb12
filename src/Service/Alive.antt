-- ===== src/Service/Alive.antt =====
-- The service as a disposable object: while it has peers, no timer of its own runs.
use platform_upstream_gumd.Common.{
  ℕ, ◌≡◌, ◌≢◌, refl, sym, ap, subst, ◌∙◌, ◌⊎◌, inl, inr, Bool, true, false, not, Option, none, some,
  List, [], ◌∷◌, ◌++◌, ◌==◌, if◌then◌else◌, Bool-cases, if_both, arith,
}
use platform_upstream_gumd.Error.{Result, ok, err}
use platform_upstream_gumd.Disposable
use platform_upstream_gumd.Disposable.{
  Source, Disposable, new_disposable, set_timeout, set_auto_dispose, remove_timer, with_source,
  unref, dispatch,
}
use platform_upstream_gumd.Disposable.Tracked.{Tracked, Reached-Tracked}
use platform_upstream_gumd.Service.{
  BusType, no_bus, msg_bus, p2p, Kind, Exports, Invocation, Service, Reply, is_empty, keep, let_go,
  on_bus_name_lost, on_adapter_disposed, add_bus_name_watcher, new_adapter, add_peer,
  create_and_cache, with_adapter, obtain, handle_cached, handle_get, handle_get_by_name,
  handle_create_new,
}
use platform_upstream_gumd.Service.Uses.{
  Served, gets, gets_by_name, creates, loses, moves, changes, ticks, new_with_connection, Reached,
  begun, then_served,
}
use platform_upstream_gumd.Service.Kept.{held_is_empty, KeptBy, Served-KeptBy}

module _ {D : Type 0} (exports : Exports) (k : Kind D) where
  watcher-keeper :
      (b : BusType) (inv : Invocation) (s : Service D)
      → (add_bus_name_watcher exports b inv s).keeper ≡ s.keeper
  unfolding add_bus_name_watcher
  watcher-keeper no_bus inv s = refl
  watcher-keeper p2p inv s = refl
  watcher-keeper msg_bus inv s = ground arith

  new_adapter-keeper :
      (h : ℕ) (s : Service D)
      → ((new_adapter exports k h s).1.keeper ≡ s.keeper)
        × ((new_adapter exports k h s).1.peers ≡ s.peers)
  unfolding new_adapter
  new_adapter-keeper h s = ground arith

  create_and_cache-keeper :
      (inv : Invocation) (h : ℕ) (s : Service D)
      → (create_and_cache exports k inv h s).1.keeper
        ≡ (if is_empty s.peers then set_auto_dispose exports.new_id false s.keeper else s.keeper)
  unfolding create_and_cache
  create_and_cache-keeper inv h s =
      let s1 = (new_adapter exports k h s).1 in
      let same = new_adapter-keeper h s in
      let s2 = if is_empty s1.peers then keep exports false s1 else s1 in
      let s3 = add_peer exports k inv (new_adapter exports k h s).0 s2 in
      watcher-keeper s3.dbus_server_type inv s3 ∙ ground (arith, same, ap is_empty same.1)

-- What holds of a disposable object however often it is told to be kept or let go holds of the
-- service when it has served.
module _ {D : Type 0} (exports : Exports) (k : Kind D) (P : Disposable → Type 0)
    (closed : (b : Bool) (d : Disposable) → P d → P (set_auto_dispose exports.new_id b d)) where
  let_go_closed : (s : Service D) → P s.keeper → P (let_go exports s).keeper
  let_go_closed s h =
      if_both (λ (x : Service D). P x.keeper) (is_empty s.peers) (closed true s.keeper h) h

  create_and_cache_closed :
      (inv : Invocation) (h : ℕ) (s : Service D)
      → P s.keeper
      → P (create_and_cache exports k inv h s).1.keeper
  create_and_cache_closed inv h s p =
      subst P (sym (create_and_cache-keeper exports k inv h s))
        (if_both P (is_empty s.peers) (closed false s.keeper p) p)

  with_adapter_closed :
      (inv : Invocation) (r : Result ℕ × D) (s : Service D)
      → P s.keeper
      → P (with_adapter exports k inv r s).1.keeper
  unfolding with_adapter
  with_adapter_closed inv (err x, d) s p = p
  with_adapter_closed inv (ok h, d) s p = create_and_cache_closed inv h (record s { daemon = d }) p

  obtain_closed :
      (inv : Invocation) (id : ℕ) (found : Option ℕ) (s : Service D)
      → P s.keeper
      → P (obtain exports k inv id found s).1.keeper
  unfolding obtain
  obtain_closed inv id (some a) s p = p
  obtain_closed inv id none s p = with_adapter_closed inv (k.get_object id s.daemon) s p

  handle_cached_closed :
      (inv : Invocation) (id : ℕ) (found : Option (Option ℕ)) (s : Service D) (r : Reply)
      (t : Service D)
      → P s.keeper
      → handle_cached exports k inv id found s ≡ some (r, t)
      → P t.keeper
  unfolding handle_cached
  handle_cached_closed inv id none s r t p h = absurd (cc)
  handle_cached_closed inv id (some found) s r t p h =
      let s' = (obtain exports k inv id found s).1 in
      let q : keep exports true s' ≡ t = ground arith in
      subst (λ x. P x.keeper) q (closed true s'.keeper (obtain_closed inv id found s p))

  Served_closed :
      {s t : Service D} (Q : Disposable → Type 0)
      → ((d : Disposable) → P d → Q d)
      → ((src : Source) (before after : List Source)
          → s.keeper.sources ≡ before ++ src ∷ after
          → Q (dispatch src s.keeper))
      → P s.keeper
      → Served exports k s t
      → Q t.keeper
  unfolding handle_get handle_get_by_name handle_create_new on_bus_name_lost on_adapter_disposed
  Served_closed {s} {t} Q weak tick p (gets inv id r u h) =
      weak t.keeper
        (handle_cached_closed inv id _ (keep exports false s) r u (closed false s.keeper p) h)
  Served_closed {s} {t} Q weak tick p (gets_by_name inv name r u h) =
      weak t.keeper (handle_cached_closed inv _ _ _ r u (closed false s.keeper p) h)
  Served_closed {s} {t} Q weak tick p (creates inv) =
      let made = k.new_object s.daemon in
      let s1 = record (keep exports false s) { daemon = made.1 } in
      weak t.keeper (
        closed true (create_and_cache exports k inv made.0 s1).1.keeper
          (create_and_cache_closed inv made.0 s1 (closed false s.keeper p)))
  Served_closed {s} {t} Q weak tick p (loses name) = weak t.keeper (let_go_closed _ p)
  Served_closed {s} {t} Q weak tick p (moves a d _ _) =
      weak t.keeper (if_both (λ (x : Service D). P x.keeper) _ (let_go_closed _ p) p)
  Served_closed {s} {t} Q weak tick p (changes d) = weak s.keeper p
  Served_closed Q weak tick p (ticks src before after e) = tick src before after e

set_auto_dispose-alive :
    (new_id : List Source → ℕ) (b : Bool) (d : Disposable)
    → ((set_auto_dispose new_id b d).refs ≡ d.refs)
      × ((set_auto_dispose new_id b d).delete_later ≡ d.delete_later)
unfolding set_auto_dispose remove_timer with_source
set_auto_dispose-alive new_id b d = ground arith

dispatch-delete_later : (s : Source) (d : Disposable) → (dispatch s d).delete_later ≡ d.delete_later
unfolding dispatch unref remove_timer
dispatch-delete_later s d = ground arith

module _ {D : Type 0} (exports : Exports) (k : Kind D) where
  -- The disposable object is one that its own steps reach, and is not deleted but by its timer.
  IsService : Disposable → Type 0
  IsService d = Disposable.Reached exports.new_id d × (d.delete_later ≡ false)

  abbrev AliveService : Disposable → Type 0
  AliveService d = IsService d × (d.refs ≢ 0)

  set_auto_dispose-AliveService :
      (b : Bool) (d : Disposable)
      → AliveService d
      → AliveService (set_auto_dispose exports.new_id b d)
  unfolding IsService
  set_auto_dispose-AliveService b d ((r, l), n) = (
    (
      Disposable.after_step r (Disposable.sets_auto_dispose b n),
      ground (arith, set_auto_dispose-alive exports.new_id b d),
    ),
    ground (arith, set_auto_dispose-alive exports.new_id b d),
  )

  dispatch-IsService :
      (s : Service D) (src : Source) (before after : List Source)
      → AliveService s.keeper
      → s.keeper.sources ≡ before ++ src ∷ after
      → IsService (dispatch src s.keeper)
  unfolding IsService
  dispatch-IsService s src before after ((r, l), n) e = (
    Disposable.after_step r (Disposable.dispatches src before after e n),
    dispatch-delete_later src s.keeper ∙ l,
  )

  Served-IsService :
      {s t : Service D} → AliveService s.keeper → Served exports k s t → IsService t.keeper
  Served-IsService {s} a step =
      Served_closed exports k AliveService set_auto_dispose-AliveService IsService (λ d x. x.0)
        (λ src before after e. dispatch-IsService s src before after a e) a step

  timed-IsService : (timeout : ℕ) → IsService (set_timeout exports.new_id timeout new_disposable)
  unfolding IsService set_timeout with_source
  timed-IsService timeout = (
    Disposable.after_step Disposable.created (Disposable.sets_timeout timeout (ground arith) refl),
    ground arith,
  )

  new-IsService : IsService new_disposable
  unfolding IsService
  new-IsService = (Disposable.created, refl)

  begun-IsService :
      (b : BusType) (timeout : ℕ) (d : D)
      → IsService (new_with_connection exports k b timeout d).keeper
  unfolding new_with_connection
  begun-IsService p2p timeout d = new-IsService
  begun-IsService no_bus timeout d =
      if_both IsService (not (timeout == 0)) (timed-IsService timeout) new-IsService
  begun-IsService msg_bus timeout d =
      if_both IsService (not (timeout == 0)) (timed-IsService timeout) new-IsService

  Reached-IsService :
      {b : BusType} {timeout : ℕ} {d : D} {s : Service D}
      → Reached exports k b timeout d s
      → IsService s.keeper
  Reached-IsService {b} {timeout} {d} begun = begun-IsService b timeout d
  Reached-IsService (then_served r n step) = Served-IsService (Reached-IsService r, n) step

  begun-KeptBy :
      (b : BusType) (timeout : ℕ) (d : D)
      → KeptBy exports 0 (new_with_connection exports k b timeout d)
  unfolding new_with_connection set_timeout with_source
  begun-KeptBy p2p timeout d = ground arith
  begun-KeptBy no_bus timeout d = ground arith
  begun-KeptBy msg_bus timeout d = ground arith

  Reached-KeptBy :
      {b : BusType} {timeout : ℕ} {d : D} {s : Service D}
      → Reached exports k b timeout d s
      → KeptBy exports 0 s
  Reached-KeptBy {b} {timeout} {d} begun = begun-KeptBy b timeout d
  Reached-KeptBy (then_served r n step) = Served-KeptBy exports k (Reached-KeptBy r) step

  no_timer :
      (d : Disposable)
      → Tracked d
      → d.delete_later ≡ false
      → d.keep_obj_counter ≢ 0
      → d.sources ≡ []
  no_timer d h l n = ground arith

  -- However a service has been used, it has one keeper if it has peers and none otherwise; and while it
  -- has peers, no timer of its own runs, by which it could be disposed of.
  pub Reached-Kept :
      ((sources : List Source) → exports.new_id sources ≢ 0)
      → {b : BusType} {timeout : ℕ} {d : D} {s : Service D} → Reached exports k b timeout d s
      → (s.keeper.keep_obj_counter ≡ (if is_empty s.peers then 0 else 1))
        × ((is_empty s.peers ≡ true) ⊎ (s.keeper.sources ≡ []))
  unfolding IsService
  Reached-Kept positive {s = s} r =
      let counted : s.keeper.keep_obj_counter ≡ (if is_empty s.peers then 0 else 1) =
        ground (arith, Reached-KeptBy r, held_is_empty s.peers) in
      let tracked = Reached-Tracked exports.new_id positive (Reached-IsService r).0 in
      (
        counted,
        elim (Bool-cases (is_empty s.peers)) [
          | inl e ↦ inl e
          | inr e ↦
              inr (no_timer s.keeper tracked (Reached-IsService r).1 (ground (arith, counted, e)))
        ],
      )
