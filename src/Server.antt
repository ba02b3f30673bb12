-- ===== src/Server.antt =====
-- src/daemon/dbus/gumd-dbus-server-p2p.c: the server that its peers connect to. It has a service of the
-- users and one of the groups for each connection, and wants to hear when a connection is closed and when
-- a service has been disposed of. Connections and services are known by numbers.
pub mod Wired
pub mod Cleared
pub mod Dangling
pub mod MsgBus
use platform_upstream_gumd.Common.{
  ℕ, ◌≡◌, ◌≢◌, Bool, true, false, Option, none, some, List, [], ◌∷◌, ◌++◌, ◌==◌, if◌then◌else◌,
}

-- An entry of `user_service_adapters` or `group_service_adapters`.
pub record Entry : Type 0 where
  pub connection : ℕ
  pub service : ℕ

-- The tables; the connections with a handler of the server for `closed`, the services with a weak
-- reference by which the server is called back, and those that it has dropped its reference to.
pub record Server : Type 0 where
  pub user_services : List Entry
  pub group_services : List Entry
  pub handlers : List ℕ
  pub weak_refs : List ℕ
  pub dropped : List ℕ

-- `g_signal_handlers_disconnect_by_func`, and what goes with an object that is disposed of
unfoldable pub without : ℕ → List ℕ → List ℕ
without n [] = []
without n (m ∷ rest) = let rest' = without n rest in if m == n then rest' else m ∷ rest'

-- `g_object_weak_unref`
unfoldable pub without_one : ℕ → List ℕ → List ℕ
without_one n [] = []
without_one n (m ∷ rest) = let rest' = without_one n rest in if m == n then rest else m ∷ rest'

unfoldable pub lookup : ℕ → List Entry → Option ℕ
lookup c [] = none
lookup c (e ∷ rest) =
    let later = lookup c rest in if e.connection == c then some e.service else later

unfoldable pub remove : ℕ → List Entry → List Entry
remove c [] = []
remove c (e ∷ rest) = let rest' = remove c rest in if e.connection == c then rest' else e ∷ rest'

-- `g_hash_table_foreach_steal` with `_compare_by_pointer`
unfoldable pub steal : ℕ → List Entry → List Entry
steal v [] = []
steal v (e ∷ rest) = let rest' = steal v rest in if e.service == v then rest' else e ∷ rest'

unfoldable pub clear_watchers : ℕ → ℕ → Server → Server
unfolding without without_one
clear_watchers c v s = record s {
  handlers = without c s.handlers;
  weak_refs = without_one v s.weak_refs;
}

abbrev pub some_to_list : Option ℕ → List ℕ
some_to_list none = []
some_to_list (some v) = v ∷ []

-- The table drops the service that it had for the connection.
unfoldable pub add_user_watchers : ℕ → ℕ → Server → Server
unfolding remove lookup
add_user_watchers c v s = record s {
  handlers = c ∷ s.handlers;
  weak_refs = v ∷ s.weak_refs;
  user_services = record { connection = c; service = v } ∷ remove c s.user_services;
  dropped = some_to_list (lookup c s.user_services) ++ s.dropped;
}

unfoldable pub add_group_watchers : ℕ → ℕ → Server → Server
unfolding remove lookup
add_group_watchers c v s = record s {
  handlers = c ∷ s.handlers;
  weak_refs = v ∷ s.weak_refs;
  group_services = record { connection = c; service = v } ∷ remove c s.group_services;
  dropped = some_to_list (lookup c s.group_services) ++ s.dropped;
}

-- `_gumd_dbus_server_p2p_start_user_service`, with the services that are made for the connection
unfoldable pub start_services : ℕ → ℕ → ℕ → Server → Server
unfolding add_user_watchers add_group_watchers
start_services c u g s = add_group_watchers c g (add_user_watchers c u s)

-- The weak references to an object that is disposed of are gone with it.
unfoldable pub on_user_service_dispose : ℕ → Server → Server
unfolding steal without
on_user_service_dispose v s = record s {
  user_services = steal v s.user_services;
  weak_refs = without v s.weak_refs;
}

unfoldable pub on_group_service_dispose : ℕ → Server → Server
unfolding steal without
on_group_service_dispose v s = record s {
  group_services = steal v s.group_services;
  weak_refs = without v s.weak_refs;
}

abbrev pub close_user : ℕ → Option ℕ → Server → Server
close_user c none s = s
close_user c (some v) s =
    let s' = clear_watchers c v s in
    record s' { user_services = remove c s'.user_services; dropped = v ∷ s'.dropped }

abbrev pub close_group : ℕ → Option ℕ → Server → Server
close_group c none s = s
close_group c (some v) s =
    let s' = clear_watchers c v s in
    record s' { group_services = remove c s'.group_services; dropped = v ∷ s'.dropped }

unfoldable pub on_connection_closed : ℕ → Server → Server
unfolding clear_watchers remove lookup
on_connection_closed c s =
    let s' = close_user c (lookup c s.user_services) s in
    close_group c (lookup c s'.group_services) s'

unfoldable pub clear_each : List Entry → Server → Server
unfolding clear_watchers
clear_each [] s = s
clear_each (e ∷ rest) s =
    let s' = clear_watchers e.connection e.service s in
    clear_each rest (record s' { dropped = e.service ∷ s'.dropped })

-- `_dispose`, as far as the tables are concerned
unfoldable pub dispose : Server → Server
unfolding clear_each
dispose s =
    let s1 = record (clear_each s.group_services s) { group_services = [] } in
    record (clear_each s.user_services s1) { user_services = [] }

abbrev pub new_server : Server
new_server = record {
  user_services = [];
  group_services = [];
  handlers = [];
  weak_refs = [];
  dropped = [];
}

unfoldable pub count : ℕ → List ℕ → ℕ
count n [] = 0
count n (m ∷ rest) = let k = count n rest in if m == n then ℕ.suc k else k

unfoldable pub serving : ℕ → List Entry → ℕ
serving v [] = 0
serving v (e ∷ rest) = let k = serving v rest in if e.service == v then ℕ.suc k else k

-- A service that is made anew is none that the server knows; a service is disposed of while a table has
-- it, since the table has the reference.
pub data Reached : Server → Type 0 where
  begun : Reached new_server
  connected :
      {s : Server} (c u g : ℕ)
      → Reached s
      → lookup c s.user_services ≡ none
      → lookup c s.group_services ≡ none
      → u ≢ g
      → count u s.weak_refs ≡ 0
      → count g s.weak_refs ≡ 0
      → Reached (start_services c u g s)
  closed : {s : Server} (c : ℕ) → Reached s → Reached (on_connection_closed c s)
  user_disposed :
      {s : Server} (v : ℕ)
      → Reached s
      → serving v s.user_services ≢ 0
      → Reached (on_user_service_dispose v s)
  group_disposed :
      {s : Server} (v : ℕ)
      → Reached s
      → serving v s.group_services ≢ 0
      → Reached (on_group_service_dispose v s)
