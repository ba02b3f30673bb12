-- ===== src/Service/Cached.antt =====
-- What a peer is given: an adapter of its own, an earlier one if there is one.
use platform_upstream_gumd.Common.{
  ℕ, ◌≡◌, ◌≢◌, refl, sym, ap, ◌∙◌, subst, inl, inr, Bool, true, false, not, ◌&&◌, Option, none,
  some, List, [], ◌∷◌, Str, str_eq, str_eq_iff, ==_iff, ◌==◌, Bool-cases, Option-cases, arith,
}
use platform_upstream_gumd.Error.{Error, Result, ok, err}
use platform_upstream_gumd.Service.{
  Kind, Exports, Invocation, Peer, Service, Reply, object, failed, keep, get_sender,
  create_and_cache, find_adapter, adapter_from_cache, with_adapter, obtain, answer, handle_cached,
  handle_get,
}
use platform_upstream_gumd.Service.Made.{added, exported, unexported, create_and_cache-Made}

-- No entry is for NULL.
abbrev pub all_there : List Peer → Bool
all_there [] = true
all_there (p ∷ rest) =
    let rest' = all_there rest in elim p.adapter [ none ↦ false | some a ↦ rest' ]

module _ {D : Type 0} (exports : Exports) (k : Kind D) where
  -- The table has the adapter for the peer, its object has the id, and it is not to be deleted.
  pub data Entered (name : Str) (id a : ℕ) (s : Service D) : List Peer → Type 0 where
    entry :
        {p : Peer} {rest : List Peer}
        → p.peer_name ≡ name
        → p.adapter ≡ some a
        → k.id_of s.daemon (s.adapters a).object ≡ id
        → (s.adapters a).disposable.delete_later ≡ false
        → Entered name id a s (p ∷ rest)
    later :
        {p : Peer} {rest : List Peer} → Entered name id a s rest → Entered name id a s (p ∷ rest)

  abbrev pub fits : ℕ → ℕ → Service D → Bool
  fits id a s =
      k.id_of s.daemon (s.adapters a).object == id && not (s.adapters a).disposable.delete_later

  find_adapter-Entered :
      (name : Str) (id : ℕ) (s : Service D) (l : List Peer) (a : ℕ)
      → find_adapter exports k name id s l ≡ some (some a)
      → Entered name id a s l
  unfolding find_adapter
  find_adapter-Entered name id s [] a e = absurd (cc)
  find_adapter-Entered name id s (p ∷ rest) a e = elim (Bool-cases (str_eq name p.peer_name)) [
    | inr other ↦ later (find_adapter-Entered name id s rest a (ground (arith, other, e)))
    | inl own ↦ elim (Option-cases p.adapter) [
      | inl gone ↦ absurd (ground (arith, own, gone, e))
      | inr (b, here) ↦ elim (Bool-cases (fits id b s)) [
        | inl fit ↦
            let same : b ≡ a = ground (arith, own, here, fit, e) in
            entry (sym ((str_eq_iff name p.peer_name).0 own)) (here ∙ ap some same)
              (subst (λ x. k.id_of s.daemon (s.adapters x).object ≡ id) same
                (ground (arith, fit, ==_iff (k.id_of s.daemon (s.adapters b).object) id)))
              (subst (λ x. (s.adapters x).disposable.delete_later ≡ false) same
                (ground (arith, fit)))
        | inr unfit ↦
            later (find_adapter-Entered name id s rest a (ground (arith, own, here, unfit, e)))
      ]
    ]
  ]

  -- What a lookup does: an adapter that the peer has is given again, and nothing is made; a new one is
  -- made for the object that the daemon gives; and the daemon's error is passed on.
  pub data Answered (inv : Invocation) (id : ℕ) (s : Service D) (r : Reply) (t : Service D)
      : Type 0 where
    again :
        (a : ℕ)
        → Entered (get_sender s.dbus_server_type inv) id a s s.peers
        → r ≡ object (some (s.adapters a).path)
        → t.peers ≡ s.peers
        → t.adapters ≡ s.adapters
        → t.daemon ≡ s.daemon
        → Answered inv id s r t
    made :
        (h : ℕ) (d : D)
        → k.get_object id s.daemon ≡ (ok h, d)
        → exports.exported s.object_counter ≡ true
        → r ≡ object (some (exports.object_path s.object_counter))
        → t.peers ≡ added inv (some s.object_counter) s
        → (t.adapters s.object_counter).object ≡ h
        → Answered inv id s r t
    kept_null :
        (h : ℕ) (d : D)
        → k.get_object id s.daemon ≡ (ok h, d)
        → exports.exported s.object_counter ≡ false
        → r ≡ failed k.not_found
        → t.peers ≡ added inv none s
        → Answered inv id s r t
    refused :
        (e : Error) (d : D)
        → k.get_object id s.daemon ≡ (err e, d)
        → r ≡ failed e
        → t.peers ≡ s.peers
        → t.adapters ≡ s.adapters
        → Answered inv id s r t

  with_adapter-Answered :
      (inv : Invocation) (id : ℕ) (s : Service D) (g : Result ℕ × D)
      → k.get_object id s.daemon ≡ g
      → let t = with_adapter exports k inv g s in
        Answered inv id s (answer exports k t.0 t.1) (keep exports true t.1)
  unfolding with_adapter answer
  with_adapter-Answered inv id s (err e, d) q = refused e d q refl refl refl
  with_adapter-Answered inv id s (ok h, d) q =
      let s1 = record s { daemon = d } in
      let t = (create_and_cache exports k inv h s1).1 in
      elim (create_and_cache-Made exports k inv h s1) [
        | exported x a l path o ↦
            made h d q x (ap (λ b. answer exports k (ok b) t) a ∙ ap (λ w. object (some w)) path) l
              o
        | unexported x a l ↦ kept_null h d q x (ap (λ b. answer exports k (ok b) t) a) l
      ]

  pub obtain-Answered :
      (inv : Invocation) (id : ℕ) (s : Service D) (found : Option ℕ)
      → adapter_from_cache exports k inv id s ≡ some found
      → let t = obtain exports k inv id found s in
        Answered inv id s (answer exports k t.0 t.1) (keep exports true t.1)
  unfolding obtain adapter_from_cache
  obtain-Answered inv id s none e = with_adapter-Answered inv id s (k.get_object id s.daemon) refl
  obtain-Answered inv id s (some a) e =
      let name = get_sender s.dbus_server_type inv in
      let found : find_adapter exports k name id s s.peers ≡ some (some a) = ground (arith, e) in
      again a (find_adapter-Entered name id s s.peers a found) (unfold answer in refl) refl refl
        refl

  find_adapter-there :
      (name : Str) (id : ℕ) (s : Service D) (l : List Peer)
      → all_there l ≡ true
      → find_adapter exports k name id s l ≢ none
  unfolding find_adapter
  find_adapter-there name id s [] e f = cc
  find_adapter-there name id s (p ∷ rest) e f = ground (arith, find_adapter-there name id s rest)

  adapter_from_cache-there :
      (inv : Invocation) (id : ℕ) (s : Service D)
      → all_there s.peers ≡ true
      → adapter_from_cache exports k inv id s ≢ none
  unfolding adapter_from_cache
  adapter_from_cache-there inv id s e f =
      ground (arith, f, find_adapter-there (get_sender s.dbus_server_type inv) id s s.peers e)

  -- Where no entry is for NULL, a lookup is answered, and the service, kept for the request, does one of
  -- these: it gives the peer an adapter that the peer itself has for an object with the id, and makes
  -- nothing; it gives a new adapter for the daemon's object; it refuses, with an entry for NULL, where
  -- the adapter cannot be exported; or it passes on the daemon's error.
  pub handle_get-Answered :
      (inv : Invocation) (id : ℕ) (s : Service D)
      → all_there s.peers ≡ true
      → (r : Reply) × (t : Service D) × ((handle_get exports k inv id s ≡ some (r, t))
          × Answered inv id (keep exports false s) r t)
  unfolding handle_get handle_cached
  handle_get-Answered inv id s there =
      let s1 = keep exports false s in
      elim (Option-cases (adapter_from_cache exports k inv id s1)) [
        | inl q ↦ absurd (adapter_from_cache-there inv id s1 there q)
        | inr (found, q) ↦
            let o = obtain exports k inv id found s1 in
            (
              answer exports k o.0 o.1,
              keep exports true o.1,
              (ap (λ x. handle_cached exports k inv id x s1) q, obtain-Answered inv id s1 found q),
            )
      ]
