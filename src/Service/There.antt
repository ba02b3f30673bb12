-- ===== src/Service/There.antt =====
-- A service whose adapters can all be exported.
use platform_upstream_gumd.Common.{
  ℕ, ◌≡◌, refl, sym, ap, ◌∙◌, inl, inr, true, false, some, List, [], ◌∷◌, ◌++◌, Str, Option-cases,
  arith,
}
use mathlib.Core.Option.{some-injective}
use platform_upstream_gumd.Disposable.{Disposable}
use platform_upstream_gumd.Service.{
  BusType, no_bus, msg_bus, p2p, Kind, Exports, Invocation, Peer, Service, Reply, keep, moved,
  get_sender, clear_adapter, clear_peer, create_and_cache, adapter_from_cache, handle_cached,
  handle_get, handle_get_by_name, handle_create_new, on_bus_name_lost, on_adapter_disposed,
}
use platform_upstream_gumd.Service.Uses.{
  Served, gets, gets_by_name, creates, loses, moves, changes, ticks, new_with_connection, Reached,
  begun, then_served,
}
use platform_upstream_gumd.Service.Made.{exported, unexported, create_and_cache-Made}
use platform_upstream_gumd.Service.Cached.{
  all_there, Answered, again, made, kept_null, refused, obtain-Answered, handle_get-Answered,
}

append_there :
    (l : List Peer) (name : Str) (a : ℕ)
    → all_there l ≡ true
    → all_there (l ++ record { peer_name = name; adapter = some a } ∷ []) ≡ true
append_there [] name a h = refl
append_there (p ∷ rest) name a h = ground (arith, h, append_there rest name a)

clear_peer_there :
    (name : Str) (l : List Peer) → all_there l ≡ true → all_there (clear_peer name l) ≡ true
unfolding clear_peer
clear_peer_there name [] h = refl
clear_peer_there name (p ∷ rest) h = ground (arith, h, clear_peer_there name rest)

clear_adapter_there :
    (a : ℕ) (l : List Peer) → all_there l ≡ true → all_there (clear_adapter a l) ≡ true
unfolding clear_adapter
clear_adapter_there a [] h = refl
clear_adapter_there a (p ∷ rest) h = ground (arith, h, clear_adapter_there a rest)

module _ {D : Type 0} (exports : Exports) (k : Kind D)
    (good : (n : ℕ) → exports.exported n ≡ true) where
  created_there :
      (inv : Invocation) (h : ℕ) (s : Service D)
      → all_there s.peers ≡ true
      → all_there (create_and_cache exports k inv h s).1.peers ≡ true
  created_there inv h s t = elim (create_and_cache-Made exports k inv h s) [
    | exported _ _ l _ _ ↦
        ap all_there l ∙ append_there s.peers (get_sender s.dbus_server_type inv) s.object_counter t
    | unexported away _ _ ↦ absurd (cc (away, good s.object_counter))
  ]

  answered_there :
      (inv : Invocation) (id : ℕ) (s t : Service D) (r : Reply)
      → all_there s.peers ≡ true
      → Answered exports k inv id s r t
      → all_there t.peers ≡ true
  answered_there inv id s t r h (again _ _ _ l _ _) = ap all_there l ∙ h
  answered_there inv id s t r h (made _ _ _ _ _ l _) =
      ap all_there l ∙ append_there s.peers (get_sender s.dbus_server_type inv) s.object_counter h
  answered_there inv id s t r h (kept_null _ _ _ away _ _) =
      absurd (cc (away, good s.object_counter))
  answered_there inv id s t r h (refused _ _ _ _ l _) = ap all_there l ∙ h

  handle_cached_there :
      (inv : Invocation) (id : ℕ) (s t : Service D) (r : Reply)
      → all_there s.peers ≡ true
      → handle_cached exports k inv id (adapter_from_cache exports k inv id s) s ≡ some (r, t)
      → all_there t.peers ≡ true
  unfolding handle_cached
  handle_cached_there inv id s t r h e =
      elim (Option-cases (adapter_from_cache exports k inv id s)) [
        | inl q ↦ absurd (ground (arith, e, q))
        | inr (found, q) ↦
            let same = ap (λ x. handle_cached exports k inv id x s) (sym q) ∙ e in
            let x = some-injective _ _ same in
            ap (λ p. all_there p.1.peers) (sym x)
            ∙ answered_there inv id s _ _ h (obtain-Answered exports k inv id s found q)
      ]

  moved_there :
      (a : ℕ) (e : Disposable) (s : Service D)
      → all_there s.peers ≡ true
      → all_there (moved exports a e s).peers ≡ true
  unfolding on_adapter_disposed
  moved_there a e s h = ground (arith, h, clear_adapter_there a s.peers h)

  Served_there :
      {s t : Service D} → all_there s.peers ≡ true → Served exports k s t → all_there t.peers ≡ true
  unfolding handle_get handle_get_by_name handle_create_new on_bus_name_lost
  Served_there {s} h (gets inv id r t e) = handle_cached_there inv id (keep exports false s) t r h e
  Served_there {s} h (gets_by_name inv name r t e) = handle_cached_there inv _ _ t r h e
  Served_there {s} h (creates inv) = created_there inv _ _ h
  Served_there {s} h (loses name) = ground (arith, clear_peer_there name s.peers h)
  Served_there {s} h (moves a e _ _) = moved_there a e s h
  Served_there h (changes d) = h
  Served_there h (ticks _ _ _ _) = h

  begun_there :
      (b : BusType) (timeout : ℕ) (d : D)
      → all_there (new_with_connection exports k b timeout d).peers ≡ true
  unfolding new_with_connection
  begun_there no_bus timeout d = refl
  begun_there msg_bus timeout d = refl
  begun_there p2p timeout d = refl

  Reached_there :
      {b : BusType} {timeout : ℕ} {d : D} {s : Service D}
      → Reached exports k b timeout d s
      → all_there s.peers ≡ true
  Reached_there {b} {timeout} {d} begun = begun_there b timeout d
  Reached_there (then_served r _ step) = Served_there (Reached_there r) step

  -- Where all adapters can be exported: however a service has been used, a lookup is answered, and the service,
  -- kept for the request, gives the peer an adapter that the peer itself has for an object with the
  -- id, and makes nothing; or gives a new adapter for the daemon's object; or passes on the daemon's
  -- error.
  pub Reached-Answered :
      {b : BusType} {timeout : ℕ} {d : D} {s : Service D} (inv : Invocation) (id : ℕ)
      → Reached exports k b timeout d s
      → (r : Reply) × (t : Service D) × ((handle_get exports k inv id s ≡ some (r, t))
          × Answered exports k inv id (keep exports false s) r t)
  Reached-Answered {s = s} inv id r = handle_get-Answered exports k inv id s (Reached_there r)
