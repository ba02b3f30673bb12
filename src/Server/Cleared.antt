-- ===== src/Server/Cleared.antt =====
-- What is left of a connection that is closed, and of the server that is disposed of.
use platform_upstream_gumd.Common.{
  ℕ, ◌+◌, ◌-◌, ◌≡◌, ◌≢◌, refl, ap, Option, none, some, List, [], ◌∷◌, ◌==◌, if◌then◌else◌, ◌⊎◌,
  arith,
}
use platform_upstream_gumd.Server.{
  Entry, Server, lookup, clear_watchers, close_user, close_group, on_connection_closed, clear_each,
  dispose, count, serving, Reached,
}
use platform_upstream_gumd.Server.Wired.{
  count-without, count-without_one, lookup-remove, Reached-Wired,
}

-- There is a service for the connection.
abbrev pub HasService : ℕ → Server → Type 0
HasService c s = (lookup c s.user_services ≢ none) ⊎ (lookup c s.group_services ≢ none)

count_none : (l : List ℕ) → ((n : ℕ) → count n l ≡ 0) → l ≡ []
unfolding count
count_none [] h = refl
count_none (m ∷ rest) h = absurd (ground (arith, h m))

clear_each-weak_refs :
    (n : ℕ) (l : List Entry) (s : Server)
    → count n (clear_each l s).weak_refs ≡ count n s.weak_refs - serving n l
unfolding clear_each clear_watchers serving
clear_each-weak_refs n [] s = omega arith
clear_each-weak_refs n (e ∷ rest) s =
    let s' = clear_watchers e.connection e.service s in
    let ih = clear_each-weak_refs n rest (record s' { dropped = e.service ∷ s'.dropped }) in
    ground (arith, ih, count-without_one n e.service s.weak_refs)

clear_each-dropped :
    (n : ℕ) (l : List Entry) (s : Server)
    → count n (clear_each l s).dropped ≡ count n s.dropped + serving n l
unfolding clear_each clear_watchers serving count
clear_each-dropped n [] s = omega arith
clear_each-dropped n (e ∷ rest) s =
    let s' = clear_watchers e.connection e.service s in
    let ih = clear_each-dropped n rest (record s' { dropped = e.service ∷ s'.dropped }) in
    ground (arith, ih)

clear_each-handlers :
    (c : ℕ) (l : List Entry) (s : Server)
    → count c (clear_each l s).handlers
      ≡ elim (lookup c l) [ none ↦ count c s.handlers | some v ↦ 0 ]
unfolding clear_each clear_watchers lookup
clear_each-handlers c [] s = refl
clear_each-handlers c (e ∷ rest) s =
    let s' = clear_watchers e.connection e.service s in
    let ih = clear_each-handlers c rest (record s' { dropped = e.service ∷ s'.dropped }) in
    ground (arith, ih, count-without c e.connection s.handlers)

clear_each-same :
    (l : List Entry) (s : Server)
    → ((clear_each l s).user_services ≡ s.user_services)
      × ((clear_each l s).group_services ≡ s.group_services)
unfolding clear_each clear_watchers
clear_each-same [] s = (refl, refl)
clear_each-same (e ∷ rest) s =
    let s' = clear_watchers e.connection e.service s in
    clear_each-same rest (record s' { dropped = e.service ∷ s'.dropped })

-- However connections and services have come and gone: disposing of the server leaves no weak reference, it
-- drops each service once for each entry of the tables, and of each connection that still has
-- a service it leaves no handler.
pub dispose-Cleared :
    {s : Server}
    → Reached s
    → ((dispose s).weak_refs ≡ [])
      × ((v : ℕ)
          → count v (dispose s).dropped
            ≡ count v s.dropped + serving v s.user_services + serving v s.group_services)
      × ((c : ℕ) → HasService c s → count c (dispose s).handlers ≡ 0)
unfolding dispose
dispose-Cleared {s} r =
    let w = Reached-Wired r in
    let s1 = record (clear_each s.group_services s) { group_services = [] } in
    (
      count_none (dispose s).weak_refs (λ v. ground (
        arith,
        w.weak_for v,
        clear_each-weak_refs v s.user_services s1,
        clear_each-weak_refs v s.group_services s,
      )),
      λ v.
          ground (
            arith,
            clear_each-dropped v s.user_services s1,
            clear_each-dropped v s.group_services s,
          ),
      λ c has. ground (
        arith,
        has,
        clear_each-handlers c s.user_services s1,
        clear_each-handlers c s.group_services s,
      ),
    )

-- What a step leaves for the connection `d`, when the table of the users, or of the groups, has `o` for `c`.
close_user-same :
    (c d : ℕ) (s : Server) (o : Option ℕ)
    → lookup c s.user_services ≡ o
    → let t = close_user c o s in
      (lookup d t.user_services ≡ (if d == c then none else lookup d s.user_services))
      × (lookup d t.group_services ≡ lookup d s.group_services)
      × (count d t.handlers ≡ (
          if d == c then elim o [ none ↦ count d s.handlers | some v ↦ 0 ] else count d s.handlers))
unfolding clear_watchers
close_user-same c d s none e = ground (arith, e, ap (λ x. lookup x s.user_services) {x = d} {y = c})
close_user-same c d s (some v) e =
    (lookup-remove c d s.user_services, refl, count-without d c s.handlers)

close_group-same :
    (c d : ℕ) (s : Server) (o : Option ℕ)
    → lookup c s.group_services ≡ o
    → let t = close_group c o s in
      (lookup d t.user_services ≡ lookup d s.user_services)
      × (lookup d t.group_services ≡ (if d == c then none else lookup d s.group_services))
      × (count d t.handlers ≡ (
          if d == c then elim o [ none ↦ count d s.handlers | some v ↦ 0 ] else count d s.handlers))
unfolding clear_watchers
close_group-same c d s none e =
    ground (arith, e, ap (λ x. lookup x s.group_services) {x = d} {y = c})
close_group-same c d s (some v) e =
    (refl, lookup-remove c d s.group_services, count-without d c s.handlers)

-- When a connection is closed that has a service, it has none afterwards and no handler, and the services
-- and the handlers of the others are as before.
pub on_connection_closed-Closed :
    (c : ℕ) (s : Server)
    → HasService c s
    → let t = on_connection_closed c s in
      (lookup c t.user_services ≡ none)
      × (lookup c t.group_services ≡ none)
      × (count c t.handlers ≡ 0)
      × ((d : ℕ)
          → d ≢ c
          → (lookup d t.user_services ≡ lookup d s.user_services)
            × (lookup d t.group_services ≡ lookup d s.group_services)
            × (count d t.handlers ≡ count d s.handlers))
unfolding on_connection_closed clear_watchers
on_connection_closed-Closed c s has =
    let s1 = close_user c (lookup c s.user_services) s in
    let users = close_user-same c c s _ refl in
    let groups = close_group-same c c s1 _ refl in
    (
      ground (arith, users, groups),
      ground (arith, users, groups),
      ground (arith, has, users, groups),
      λ d other.
          ground (arith, other, close_user-same c d s _ refl, close_group-same c d s1 _ refl),
    )
