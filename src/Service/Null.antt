-- ===== src/Service/Null.antt =====
-- The entry for an adapter that could not be exported.
use platform_upstream_gumd.Common.{
  ℕ, ◌≡◌, ◌≢◌, refl, ap, ◌∙◌, inl, inr, false, none, some, List, [], ◌∷◌, ◌++◌, Str, str_eq,
  str_eq_iff, Bool-cases, Option-cases, arith,
}
use platform_upstream_gumd.File.{invalid_id}
use platform_upstream_gumd.Service.{
  Kind, Exports, Invocation, Peer, Service, keep, get_sender, find_adapter, adapter_from_cache,
  handle_cached, handle_get, clear_peer, clear_adapter, let_go, on_bus_name_lost,
  on_adapter_disposed,
}
use platform_upstream_gumd.Service.Cached.{fits}

abbrev pub null_for : Str → Peer
null_for name = record { peer_name = name; adapter = none }

module _ {D : Type 0} (exports : Exports) (k : Kind D) where
  -- Past an entry with NULL no lookup of the peer comes.
  find_adapter-null :
      (name : Str) (id : ℕ) (s : Service D) (l after : List Peer)
      → find_adapter exports k name id s l ≡ some none
      → find_adapter exports k name id s (l ++ null_for name ∷ after) ≡ none
  unfolding find_adapter
  find_adapter-null name id s [] after e = ground (arith, str_eq_iff name name)
  find_adapter-null name id s (p ∷ rest) after e = elim (Bool-cases (str_eq name p.peer_name)) [
    | inr other ↦ rw other (find_adapter-null name id s rest after (ground (arith, other, e)))
    | inl own ↦ elim (Option-cases p.adapter) [
      | inl gone ↦ absurd (ground (arith, own, gone, e))
      | inr (b, here) ↦ elim (Bool-cases (fits exports k id b s)) [
        | inl fit ↦ absurd (ground (arith, own, here, fit, e))
        | inr unfit ↦
            let ih = find_adapter-null name id s rest after (ground (arith, own, here, unfit, e)) in
            ground (arith, own, here, unfit, ih)
      ]
    ]
  ]

  clear_peer-null :
      (name other : Str) (l after : List Peer)
      → clear_peer other (l ++ null_for name ∷ after)
        ≡ clear_peer other l ++ null_for name ∷ clear_peer other after
  unfolding clear_peer
  clear_peer-null name other [] after = refl
  clear_peer-null name other (p ∷ rest) after =
      ground (arith, clear_peer-null name other rest after)

  clear_adapter-null :
      (name : Str) (a : ℕ) (l after : List Peer)
      → clear_adapter a (l ++ null_for name ∷ after)
        ≡ clear_adapter a l ++ null_for name ∷ clear_adapter a after
  unfolding clear_adapter
  clear_adapter-null name a [] after = refl
  clear_adapter-null name a (p ∷ rest) after = ground (arith, clear_adapter-null name a rest after)

  let_go-peers : (s : Service D) → (let_go exports s).peers ≡ s.peers
  let_go-peers s = ground arith

  -- The entry for an adapter that could not be exported, wherever it stands in the table: a lookup by
  -- its peer of a valid id that none of the entries before it fits reads through NULL; and when any peer
  -- leaves the bus, this one too, or an adapter is disposed of, the entry stays in its place between
  -- what is left of the others.
  pub null_entry-faults :
      (inv : Invocation) (id : ℕ) (s : Service D) (l after : List Peer) (other : Str) (a : ℕ)
      → let name = get_sender s.dbus_server_type inv in
        s.peers ≡ l ++ null_for name ∷ after
        → find_adapter exports k name id (keep exports false s) l ≡ some none
        → id ≢ invalid_id
        → (handle_get exports k inv id s ≡ none)
          × ((on_bus_name_lost exports other s).peers
              ≡ clear_peer other l ++ null_for name ∷ clear_peer other after)
          × ((on_adapter_disposed exports a s).peers
              ≡ clear_adapter a l ++ null_for name ∷ clear_adapter a after)
  unfolding handle_get handle_cached adapter_from_cache on_bus_name_lost on_adapter_disposed
  null_entry-faults inv id s l after other a there missed valid =
      let name = get_sender s.dbus_server_type inv in
      let s1 = keep exports false s in
      let f : find_adapter exports k name id s1 s.peers ≡ none =
        ap (find_adapter exports k name id s1) there
        ∙ find_adapter-null name id s1 l after missed in
      let faulty : adapter_from_cache exports k inv id s1 ≡ none = ground (arith, valid, f) in
      (
        ap (λ x. handle_cached exports k inv id x s1) faulty,
        let_go-peers _ ∙ ap (clear_peer other) there ∙ clear_peer-null name other l after,
        let_go-peers _ ∙ ap (clear_adapter a) there ∙ clear_adapter-null name a l after,
      )
