-- ===== src/Server/Wired.antt =====
-- The weak references and the handlers of the server are those of the services in its tables.
use platform_upstream_gumd.Common.{
  ℕ, suc, ◌+◌, ◌≤◌, ◌≡◌, ◌≢◌, refl, subst, Option, none, some, List, [], ◌∷◌, ◌==◌, if◌then◌else◌,
  Bool-cases, ==_iff, ◌-◌, inl, inr, arith,
}
use platform_upstream_gumd.Server.{
  Entry, Server, without, without_one, lookup, remove, steal, clear_watchers, add_user_watchers,
  add_group_watchers, start_services, on_user_service_dispose, on_group_service_dispose, close_user,
  close_group, on_connection_closed, count, serving, Reached, begun, connected, closed,
  user_disposed, group_disposed,
}

-- One entry for a connection.
abbrev pub Distinct : List Entry → Type 0
Distinct [] = Unit
Distinct (e ∷ rest) = (lookup e.connection rest ≡ none) × Distinct rest

pub count-without :
    (n m : ℕ) (l : List ℕ) → count n (without m l) ≡ (if n == m then 0 else count n l)
unfolding count without
count-without n m [] = ground arith
count-without n m (x ∷ rest) = ground (arith, count-without n m rest)

pub count-without_one :
    (n m : ℕ) (l : List ℕ)
    → count n (without_one m l) ≡ (if n == m then count n l - 1 else count n l)
unfolding count without_one
count-without_one n m [] = ground arith
count-without_one n m (x ∷ rest) = ground (arith, count-without_one n m rest)

serving-steal :
    (n m : ℕ) (l : List Entry) → serving n (steal m l) ≡ (if n == m then 0 else serving n l)
unfolding serving steal
serving-steal n m [] = ground arith
serving-steal n m (x ∷ rest) = ground (arith, serving-steal n m rest)

remove_missing : (c : ℕ) (l : List Entry) → lookup c l ≡ none → remove c l ≡ l
unfolding lookup remove
remove_missing c [] e = refl
remove_missing c (x ∷ rest) e = ground (arith, e, remove_missing c rest)

pub lookup-remove :
    (c d : ℕ) (l : List Entry) → lookup d (remove c l) ≡ (if d == c then none else lookup d l)
unfolding lookup remove
lookup-remove c d [] = ground arith
lookup-remove c d (x ∷ rest) = ground (arith, lookup-remove c d rest)

lookup-steal_missing : (v d : ℕ) (l : List Entry) → lookup d l ≡ none → lookup d (steal v l) ≡ none
unfolding lookup steal
lookup-steal_missing v d [] e = refl
lookup-steal_missing v d (x ∷ rest) e = ground (arith, e, lookup-steal_missing v d rest)

serving-remove :
    (n c : ℕ) (v : ℕ) (l : List Entry)
    → Distinct l
    → lookup c l ≡ some v
    → serving n l ≡ (if n == v then suc (serving n (remove c l)) else serving n (remove c l))
unfolding serving lookup remove
serving-remove n c v [] h e = absurd (cc)
serving-remove n c v (x ∷ rest) (h, hs) e = elim (Bool-cases (x.connection == c)) [
  | inl own ↦
      let same = (==_iff x.connection c).0 own in
      let gone = remove_missing c rest (subst (λ d. lookup d rest ≡ none) same h) in
      let here : x.service ≡ v = ground (arith, own, e) in rw (own, gone) (ground (arith, here))
  | inr other ↦
      let later : lookup c rest ≡ some v = ground (arith, other, e) in
      let ih = serving-remove n c v rest hs later in rw other (ground (arith, ih))
]

serving_missing : (n c : ℕ) (l : List Entry) → serving n l ≡ 0 → (e : lookup c l ≡ some n) → ⊥
unfolding serving lookup
serving_missing n c [] z e = cc
serving_missing n c (x ∷ rest) z e = ground (arith, z, e, serving_missing n c rest)

remove-Distinct : (c : ℕ) (l : List Entry) → Distinct l → Distinct (remove c l)
unfolding remove
remove-Distinct c [] h = h
remove-Distinct c (x ∷ rest) (h, hs) = elim (Bool-cases (x.connection == c)) [
  | inl own ↦ rw own (remove-Distinct c rest hs)
  | inr other ↦
      rw other (ground (arith, h, lookup-remove c x.connection rest), remove-Distinct c rest hs)
]

steal-Distinct : (v : ℕ) (l : List Entry) → Distinct l → Distinct (steal v l)
unfolding steal
steal-Distinct v [] h = h
steal-Distinct v (x ∷ rest) (h, hs) = elim (Bool-cases (x.service == v)) [
  | inl own ↦ rw own (steal-Distinct v rest hs)
  | inr other ↦ rw other (lookup-steal_missing v x.connection rest h, steal-Distinct v rest hs)
]

-- A weak reference for each entry, at most one for a service, and one entry for a connection.
pub record Wired (s : Server) : Type 0 where
  pub weak_for :
      (v : ℕ) → count v s.weak_refs ≡ serving v s.user_services + serving v s.group_services
  pub weak_once : (v : ℕ) → count v s.weak_refs ≤ 1
  pub user_keys : Distinct s.user_services
  pub group_keys : Distinct s.group_services

start_services-Wired :
    (c u g : ℕ) (s : Server)
    → Wired s
    → lookup c s.user_services ≡ none
    → lookup c s.group_services ≡ none
    → u ≢ g
    → count u s.weak_refs ≡ 0
    → count g s.weak_refs ≡ 0
    → Wired (start_services c u g s)
unfolding start_services add_user_watchers add_group_watchers count serving
start_services-Wired c u g s w no_user no_group n zu zg =
    let same_users = remove_missing c s.user_services no_user in
    let same_groups = remove_missing c s.group_services no_group in
    record {
      weak_for = λ v. rw (same_users, same_groups) (ground (arith, w.weak_for v));
      weak_once = λ v. ground (arith, w.weak_once v, zu, zg, n);
      user_keys = rw same_users (no_user, w.user_keys);
      group_keys = rw same_groups (no_group, w.group_keys);
    }

close_user-Wired :
    (c : ℕ) (s : Server) (o : Option ℕ)
    → lookup c s.user_services ≡ o
    → Wired s
    → Wired (close_user c o s)
unfolding clear_watchers
close_user-Wired c s none e w = w
close_user-Wired c s (some v) e w = record {
  weak_for = λ n. ground (
    arith,
    w.weak_for n,
    count-without_one n v s.weak_refs,
    serving-remove n c v s.user_services w.user_keys e,
  );
  weak_once = λ n. ground (arith, w.weak_once n, count-without_one n v s.weak_refs);
  user_keys = remove-Distinct c s.user_services w.user_keys;
  group_keys = w.group_keys;
}

close_group-Wired :
    (c : ℕ) (s : Server) (o : Option ℕ)
    → lookup c s.group_services ≡ o
    → Wired s
    → Wired (close_group c o s)
unfolding clear_watchers
close_group-Wired c s none e w = w
close_group-Wired c s (some v) e w = record {
  weak_for = λ n. ground (
    arith,
    w.weak_for n,
    count-without_one n v s.weak_refs,
    serving-remove n c v s.group_services w.group_keys e,
  );
  weak_once = λ n. ground (arith, w.weak_once n, count-without_one n v s.weak_refs);
  user_keys = w.user_keys;
  group_keys = remove-Distinct c s.group_services w.group_keys;
}

on_user_service_dispose-Wired :
    (v : ℕ) (s : Server)
    → Wired s
    → serving v s.user_services ≢ 0
    → Wired (on_user_service_dispose v s)
unfolding on_user_service_dispose
on_user_service_dispose-Wired v s w n = record {
  weak_for = λ m. ground (
    arith,
    n,
    w.weak_for m,
    w.weak_for v,
    w.weak_once v,
    count-without m v s.weak_refs,
    serving-steal m v s.user_services,
  );
  weak_once = λ m. ground (arith, w.weak_once m, count-without m v s.weak_refs);
  user_keys = steal-Distinct v s.user_services w.user_keys;
  group_keys = w.group_keys;
}

on_group_service_dispose-Wired :
    (v : ℕ) (s : Server)
    → Wired s
    → serving v s.group_services ≢ 0
    → Wired (on_group_service_dispose v s)
unfolding on_group_service_dispose
on_group_service_dispose-Wired v s w n = record {
  weak_for = λ m. ground (
    arith,
    n,
    w.weak_for m,
    w.weak_for v,
    w.weak_once v,
    count-without m v s.weak_refs,
    serving-steal m v s.group_services,
  );
  weak_once = λ m. ground (arith, w.weak_once m, count-without m v s.weak_refs);
  user_keys = w.user_keys;
  group_keys = steal-Distinct v s.group_services w.group_keys;
}

pub Reached-Wired : {s : Server} → Reached s → Wired s
unfolding on_connection_closed count serving
Reached-Wired begun = record {
  weak_for = λ v. refl;
  weak_once = λ v. ground arith;
  user_keys = tt;
  group_keys = tt;
}
Reached-Wired (connected {s} c u g r nu ng n zu zg) =
    start_services-Wired c u g s (Reached-Wired r) nu ng n zu zg
Reached-Wired (closed {s} c r) =
    close_group-Wired c _ _ refl (close_user-Wired c s _ refl (Reached-Wired r))
Reached-Wired (user_disposed {s} v r n) = on_user_service_dispose-Wired v s (Reached-Wired r) n
Reached-Wired (group_disposed {s} v r n) = on_group_service_dispose-Wired v s (Reached-Wired r) n
