-- ===== src/Service/Kept.antt =====
-- While it has peers, a service is kept, and no timer of its own runs.
use platform_upstream_gumd.Common.{
  ℕ, suc, ◌+◌, ◌-◌, ◌≡◌, refl, ap, subst, ◌∙◌, inl, inr, Bool, true, false, Option, none, some,
  List, [], ◌∷◌, ◌++◌, Str, if◌then◌else◌, Bool-cases, if_both, arith,
}
use platform_upstream_gumd.Error.{Result, ok, err}
use platform_upstream_gumd.Disposable.{
  Source, Disposable, set_auto_dispose, remove_timer, with_source, unref, dispatch,
}
use platform_upstream_gumd.Service.{
  BusType, no_bus, msg_bus, p2p, Kind, Exports, Invocation, Peer, Service, Reply, is_empty, keep,
  let_go, on_bus_name_lost, on_adapter_disposed, add_bus_name_watcher, new_adapter, add_peer,
  create_and_cache, with_adapter, obtain, handle_cached, handle_get, handle_get_by_name,
  handle_create_new, clear_peer, clear_adapter, get_sender,
}
use platform_upstream_gumd.Service.Uses.{
  Served, gets, gets_by_name, creates, loses, moves, changes, ticks,
}

module _ (new_id : List Source → ℕ) where
  set_auto_dispose-count :
      (dispose : Bool) (d : Disposable)
      → (set_auto_dispose new_id dispose d).keep_obj_counter
        ≡ (if dispose then d.keep_obj_counter - 1 else d.keep_obj_counter + 1)
  unfolding set_auto_dispose with_source remove_timer
  set_auto_dispose-count dispose d = ground arith

dispatch-count :
    (s : Source) (d : Disposable) → (dispatch s d).keep_obj_counter ≡ d.keep_obj_counter
unfolding dispatch unref remove_timer
dispatch-count s d = ground arith

-- One keeper for the peers, if there are any, and `more` besides.
abbrev pub held : List Peer → ℕ
held [] = 0
held (p ∷ rest) = 1

pub held_is_empty : (l : List Peer) → held l ≡ (if is_empty l then 0 else 1)
held_is_empty [] = refl
held_is_empty (p ∷ rest) = refl

held-append : (l : List Peer) (p : Peer) → held (l ++ p ∷ []) ≡ 1
held-append [] p = refl
held-append (q ∷ rest) p = refl

-- A table with entries left had entries.
some_of_clear_peer :
    (name : Str) (l : List Peer) → is_empty (clear_peer name l) ≡ false → is_empty l ≡ false
unfolding clear_peer
some_of_clear_peer name [] e = e
some_of_clear_peer name (p ∷ rest) e = refl

some_of_clear_adapter :
    (a : ℕ) (l : List Peer) → is_empty (clear_adapter a l) ≡ false → is_empty l ≡ false
unfolding clear_adapter
some_of_clear_adapter a [] e = e
some_of_clear_adapter a (p ∷ rest) e = refl

module _ {D : Type 0} (exports : Exports) where
  abbrev pub KeptBy : ℕ → Service D → Type 0
  KeptBy more s = s.keeper.keep_obj_counter ≡ held s.peers + more

  keep-true : (more : ℕ) (s : Service D) → KeptBy (suc more) s → KeptBy more (keep exports true s)
  keep-true more s e = ground (arith, set_auto_dispose-count exports.new_id true s.keeper)

  keep-false : (more : ℕ) (s : Service D) → KeptBy more s → KeptBy (suc more) (keep exports false s)
  keep-false more s e = ground (arith, set_auto_dispose-count exports.new_id false s.keeper)

  let_go-KeptBy :
      (before : List Peer) (s : Service D)
      → s.keeper.keep_obj_counter ≡ held before + 0
      → (is_empty s.peers ≡ false → is_empty before ≡ false)
      → KeptBy 0 (let_go exports s)
  let_go-KeptBy before s e kept = elim (Bool-cases (is_empty s.peers)) [
    | inl none_left ↦ rw none_left (
        ground (
          arith,
          set_auto_dispose-count exports.new_id true s.keeper,
          held_is_empty s.peers,
          held_is_empty before,
        ))
    | inr some_left ↦
        rw some_left (ground (arith, held_is_empty s.peers, held_is_empty before, kept some_left))
  ]

  new_adapter-keeper :
      (k : Kind D) (h : ℕ) (s : Service D)
      → ((new_adapter exports k h s).1.keeper ≡ s.keeper)
        × ((new_adapter exports k h s).1.peers ≡ s.peers)
  unfolding new_adapter
  new_adapter-keeper k h s = ground arith

  add_bus_name_watcher-KeptBy :
      (more : ℕ) (b : BusType) (inv : Invocation) (s : Service D)
      → KeptBy more s
      → KeptBy more (add_bus_name_watcher exports b inv s)
  unfolding add_bus_name_watcher
  add_bus_name_watcher-KeptBy more no_bus inv s e = e
  add_bus_name_watcher-KeptBy more p2p inv s e = e
  add_bus_name_watcher-KeptBy more msg_bus inv s e = ground (arith, e)

  on_bus_name_lost-KeptBy :
      (name : Str) (s : Service D) → KeptBy 0 s → KeptBy 0 (on_bus_name_lost exports name s)
  unfolding on_bus_name_lost
  on_bus_name_lost-KeptBy name s e = let_go-KeptBy s.peers _ e (some_of_clear_peer name s.peers)

  on_adapter_disposed-KeptBy :
      (a : ℕ) (s : Service D) → KeptBy 0 s → KeptBy 0 (on_adapter_disposed exports a s)
  unfolding on_adapter_disposed
  on_adapter_disposed-KeptBy a s e = let_go-KeptBy s.peers _ e (some_of_clear_adapter a s.peers)

  module _ (k : Kind D) where
    -- The first peer brings the keeper.
    add_peer-KeptBy :
        (inv : Invocation) (a : Option ℕ) (s : Service D)
        → KeptBy 1 s
        → KeptBy 1 (add_peer exports k inv a (if is_empty s.peers then keep exports false s else s))
    add_peer-KeptBy inv a s e = elim (Bool-cases (is_empty s.peers)) [
      | inl first ↦ rw first (
          ground (
            arith,
            set_auto_dispose-count exports.new_id false s.keeper,
            held_is_empty s.peers,
            held-append s.peers
                (record { peer_name = get_sender s.dbus_server_type inv; adapter = a }),
          ))
      | inr more ↦ rw more (
          ground (
            arith,
            held_is_empty s.peers,
            held-append s.peers
                (record { peer_name = get_sender s.dbus_server_type inv; adapter = a }),
          ))
    ]

    create_and_cache-KeptBy :
        (inv : Invocation) (h : ℕ) (s : Service D)
        → KeptBy 1 s
        → KeptBy 1 (create_and_cache exports k inv h s).1
    unfolding create_and_cache
    create_and_cache-KeptBy inv h s e =
        let a = (new_adapter exports k h s).0 in
        let s1 = (new_adapter exports k h s).1 in
        let same = new_adapter-keeper k h s in
        let kept : KeptBy 1 s1 = ground (arith, ap held same.1) in
        let s2 =
          add_peer exports k inv a (if is_empty s1.peers then keep exports false s1 else s1) in
        add_bus_name_watcher-KeptBy 1 s2.dbus_server_type inv s2 (add_peer-KeptBy inv a s1 kept)

    with_adapter-KeptBy :
        (inv : Invocation) (r : Result ℕ × D) (s : Service D)
        → KeptBy 1 s
        → KeptBy 1 (with_adapter exports k inv r s).1
    unfolding with_adapter
    with_adapter-KeptBy inv (err x, d) s e = e
    with_adapter-KeptBy inv (ok h, d) s e =
        create_and_cache-KeptBy inv h (record s { daemon = d }) e

    obtain-KeptBy :
        (inv : Invocation) (id : ℕ) (found : Option ℕ) (s : Service D)
        → KeptBy 1 s
        → KeptBy 1 (obtain exports k inv id found s).1
    unfolding obtain
    obtain-KeptBy inv id (some a) s e = e
    obtain-KeptBy inv id none s e = with_adapter-KeptBy inv (k.get_object id s.daemon) s e

    handle_cached-KeptBy :
        (inv : Invocation) (id : ℕ) (found : Option (Option ℕ)) (s : Service D) (r : Reply)
        (t : Service D)
        → KeptBy 1 s
        → handle_cached exports k inv id found s ≡ some (r, t)
        → KeptBy 0 t
    unfolding handle_cached
    handle_cached-KeptBy inv id none s r t e h = absurd (cc)
    handle_cached-KeptBy inv id (some found) s r t e h =
        let s' = (obtain exports k inv id found s).1 in
        let q : keep exports true s' ≡ t = ground arith in
        subst (KeptBy 0) q (keep-true 0 s' (obtain-KeptBy inv id found s e))

    pub Served-KeptBy : {s t : Service D} → KeptBy 0 s → Served exports k s t → KeptBy 0 t
    unfolding handle_get handle_get_by_name handle_create_new
    Served-KeptBy {s} e (gets inv id r t h) =
        handle_cached-KeptBy inv id _ (keep exports false s) r t (keep-false 0 s e) h
    Served-KeptBy {s} e (gets_by_name inv name r t h) =
        handle_cached-KeptBy inv _ _ _ r t (keep-false 0 s e) h
    Served-KeptBy {s} e (creates inv) =
        let made = k.new_object s.daemon in
        let s1 = record (keep exports false s) { daemon = made.1 } in
        keep-true 0 (create_and_cache exports k inv made.0 s1).1
          (create_and_cache-KeptBy inv made.0 s1 (keep-false 0 s e))
    Served-KeptBy {s} e (loses name) = on_bus_name_lost-KeptBy name s e
    Served-KeptBy {s} e (moves a d _ _) =
        if_both (λ x. KeptBy 0 x) _ (on_adapter_disposed-KeptBy a _ e) e
    Served-KeptBy {s} e (changes d) = e
    Served-KeptBy {s} e (ticks src _ _ _) = dispatch-count src s.keeper ∙ e
