-- ===== src/Service/Made.antt =====
-- The entry for a new adapter.
use platform_upstream_gumd.Common.{
  ℕ, ◌≡◌, refl, ap, ◌∙◌, inl, inr, true, false, Option, none, some, List, [], ◌∷◌, ◌++◌,
  if◌then◌else◌, Bool-cases, arith,
}
use platform_upstream_gumd.Service.{
  BusType, no_bus, msg_bus, p2p, Kind, Exports, Invocation, Peer, Service, is_empty, keep,
  get_sender, add_bus_name_watcher, new_adapter, add_peer, create_and_cache,
}

module _ {D : Type 0} where
  -- The entry of a new adapter, and the table that it stands at the end of.
  abbrev pub added : Invocation → Option ℕ → Service D → List Peer
  added inv a s =
      s.peers ++ record { peer_name = get_sender s.dbus_server_type inv; adapter = a } ∷ []

module _ {D : Type 0} (exports : Exports) (k : Kind D) where
  watcher-same :
      (b : BusType) (inv : Invocation) (s : Service D)
      → ((add_bus_name_watcher exports b inv s).peers ≡ s.peers)
        × ((add_bus_name_watcher exports b inv s).adapters ≡ s.adapters)
  unfolding add_bus_name_watcher
  watcher-same no_bus inv s = (refl, refl)
  watcher-same p2p inv s = (refl, refl)
  watcher-same msg_bus inv s = ground arith

  new_adapter-same :
      (h : ℕ) (s : Service D)
      → ((new_adapter exports k h s).1.peers ≡ s.peers)
        × ((new_adapter exports k h s).1.dbus_server_type ≡ s.dbus_server_type)
  unfolding new_adapter
  new_adapter-same h s = ground arith

  with_first-same :
      (s : Service D)
      → let t = if is_empty s.peers then keep exports false s else s in
        (t.peers ≡ s.peers) × (t.adapters ≡ s.adapters) × (t.dbus_server_type ≡ s.dbus_server_type)
  with_first-same s = ground arith

  create_and_cache-new :
      (inv : Invocation) (h : ℕ) (s : Service D)
      → let made = new_adapter exports k h s in
        let t = (create_and_cache exports k inv h s).1 in
        (t.peers ≡ added inv made.0 s) × (t.adapters ≡ made.1.adapters)
  unfolding create_and_cache
  create_and_cache-new inv h s =
      let made = new_adapter exports k h s in
      let s2 = if is_empty made.1.peers then keep exports false made.1 else made.1 in
      let s3 = add_peer exports k inv made.0 s2 in
      let w = watcher-same s3.dbus_server_type inv s3 in
      let first = with_first-same made.1 in
      let same = new_adapter-same h s in
      (
        w.0
            ∙ ap
                (λ l.
                  l
                  ++ record { peer_name = get_sender s2.dbus_server_type inv; adapter = made.0 }
                    ∷ [])
                (first.0 ∙ same.0)
            ∙ ap (λ b. s.peers ++ record { peer_name = get_sender b inv; adapter = made.0 } ∷ [])
                (first.2 ∙ same.1),
        w.1 ∙ first.1,
      )

  created-eq :
      (inv : Invocation) (h : ℕ) (s : Service D)
      → (create_and_cache exports k inv h s).0 ≡ (new_adapter exports k h s).0
  unfolding create_and_cache
  created-eq inv h s = refl

  new_adapter-exported :
      (h : ℕ) (s : Service D)
      → exports.exported s.object_counter ≡ true
      → ((new_adapter exports k h s).0 ≡ some s.object_counter)
        × (((new_adapter exports k h s).1.adapters s.object_counter).path
            ≡ exports.object_path s.object_counter)
        × (((new_adapter exports k h s).1.adapters s.object_counter).object ≡ h)
  unfolding new_adapter
  new_adapter-exported h s e = ground arith

  new_adapter-unexported :
      (h : ℕ) (s : Service D)
      → exports.exported s.object_counter ≡ false
      → (new_adapter exports k h s).0 ≡ none
  unfolding new_adapter
  new_adapter-unexported h s e = ground arith

  -- What a peer is left with: an entry for the new adapter, or one for NULL.
  pub data Made (inv : Invocation) (h : ℕ) (s : Service D) (a : Option ℕ) (t : Service D)
      : Type 0 where
    exported :
        exports.exported s.object_counter ≡ true
        → a ≡ some s.object_counter
        → t.peers ≡ added inv (some s.object_counter) s
        → (t.adapters s.object_counter).path ≡ exports.object_path s.object_counter
        → (t.adapters s.object_counter).object ≡ h
        → Made inv h s a t
    unexported :
        exports.exported s.object_counter ≡ false
        → a ≡ none
        → t.peers ≡ added inv none s
        → Made inv h s a t

  pub create_and_cache-Made :
      (inv : Invocation) (h : ℕ) (s : Service D)
      → Made inv h s (create_and_cache exports k inv h s).0 (create_and_cache exports k inv h s).1
  create_and_cache-Made inv h s =
      let made = create_and_cache-new inv h s in
      elim (Bool-cases (exports.exported s.object_counter)) [
        | inl there ↦
            let x = new_adapter-exported h s there in
            exported there (created-eq inv h s ∙ x.0) (made.0 ∙ ap (λ a. added inv a s) x.0)
              (ap (λ at. (at s.object_counter).path) made.1 ∙ x.1)
              (ap (λ at. (at s.object_counter).object) made.1 ∙ x.2)
        | inr away ↦
            let x = new_adapter-unexported h s away in
            unexported away (created-eq inv h s ∙ x) (made.0 ∙ ap (λ a. added inv a s) x)
      ]
