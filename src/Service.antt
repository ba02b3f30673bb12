-- ===== src/Service.antt =====
-- src/daemon/dbus/gumd-dbus-user-service-adapter.c, gumd-dbus-group-service-adapter.c: the services on
-- a connection, which differ in the kind of the objects only. A service makes a D-Bus adapter for
-- each peer and object that is asked for, and keeps itself while it has one. A disposed adapter takes
-- itself out of the table; a peer that leaves the bus takes its own with it.
pub mod Uses
pub mod Kept
pub mod Made
pub mod Null
pub mod There
pub mod Alive
pub mod Cached
pub mod Requests
pub mod Users
pub mod Groups
use platform_upstream_gumd.Common.{
  ℕ, suc, ◌≡◌, ◌≢◌, Bool, true, false, not, ◌&&◌, ◌||◌, Option, none, some, List, [], ◌∷◌, ◌++◌,
  Str, str_eq, ◌==◌, if◌then◌else◌,
}
use platform_upstream_gumd.Error.{Error, Result, ok, err}
use platform_upstream_gumd.File.{invalid_id}
use platform_upstream_gumd.Disposable.{
  Source, Disposable, Step, new_disposable, set_timeout, set_auto_dispose, unref, dispatch,
}
use platform_upstream_gumd.Objects.{put}

pub data BusType : Type 0 where
  no_bus msg_bus p2p : BusType

-- What a service needs of the daemon, for objects of its kind, which are known by their addresses.
pub record Kind (D : Type 0) : Type 0 where
  pub id_of : D → ℕ → ℕ
  pub get_object : ℕ → D → Result ℕ × D
  pub id_by_name : Option Str → D → ℕ × D
  pub new_object : D → ℕ × D
  pub not_found : Error
  pub timeout : ℕ

-- D-Bus and the main loop: the path of an adapter, with the nonce in it and the number that the
-- source counts, whether it can be exported, and the ids of new sources.
pub record Exports : Type 0 where
  pub object_path : ℕ → Str
  pub exported : ℕ → Bool
  pub new_id : List Source → ℕ

-- Who calls: the sender's name on the bus, and the socket of the connection as a text.
pub record Invocation : Type 0 where
  pub sender : Str
  pub socket : Str

pub record Adapter : Type 0 where
  pub disposable : Disposable
  pub object : ℕ
  pub path : Str

-- `PeerUserService`, `PeerGroupService`; the adapter is NULL where it could not be exported.
pub record Peer : Type 0 where
  pub peer_name : Str
  pub adapter : Option ℕ

-- `keeper` is the service as a disposable object; the adapters are known by their numbers.
pub record Service (D : Type 0) : Type 0 where
  pub dbus_server_type : BusType
  pub peers : List Peer
  pub caller_watchers : List Str
  pub keeper : Disposable
  pub adapters : ℕ → Adapter
  pub object_counter : ℕ
  pub daemon : D

-- An object's path, or an error.
pub data Reply : Type 0 where
  object : Option Str → Reply
  failed : Error → Reply

abbrev pub is_empty : List Peer → Bool
is_empty [] = true
is_empty (p ∷ rest) = false

unfoldable pub contains : List Str → Str → Bool
contains [] s = false
contains (x ∷ rest) s = str_eq x s || contains rest s

unfoldable pub without_name : Str → List Str → List Str
without_name s [] = []
without_name s (x ∷ rest) =
    let rest' = without_name s rest in if str_eq x s then rest' else x ∷ rest'

unfoldable pub get_sender : BusType → Invocation → Str
get_sender msg_bus inv = inv.sender
get_sender _ inv = inv.socket

abbrev pub is_adapter : ℕ → Option ℕ → Bool
is_adapter a none = false
is_adapter a (some b) = b == a

-- Of a table: without the entry of the adapter, and without the entries of a peer; the entries with NULL
-- stay.
unfoldable pub clear_adapter : ℕ → List Peer → List Peer
clear_adapter a [] = []
clear_adapter a (p ∷ rest) =
    let rest' = clear_adapter a rest in if is_adapter a p.adapter then rest' else p ∷ rest'

abbrev pub is_lost : Str → Peer → Bool
is_lost name p = elim p.adapter [ none ↦ false | some a ↦ str_eq p.peer_name name ]

unfoldable pub clear_peer : Str → List Peer → List Peer
clear_peer name [] = []
clear_peer name (p ∷ rest) =
    let rest' = clear_peer name rest in if is_lost name p then rest' else p ∷ rest'

abbrev pub unref_at : Option ℕ → (ℕ → Adapter) → ℕ → Adapter
unref_at none at = at
unref_at (some a) at = put a (record (at a) { disposable = unref (at a).disposable }) at

-- `_dbus_peer_user_free` on each entry of the peer
unfoldable pub unref_lost : Str → List Peer → (ℕ → Adapter) → ℕ → Adapter
unref_lost name [] at = at
unref_lost name (p ∷ rest) at =
    unref_lost name rest (if is_lost name p then unref_at p.adapter at else at)

module _ {D : Type 0} (exports : Exports) where
  abbrev pub keep : Bool → Service D → Service D
  keep dispose s = record s { keeper = set_auto_dispose exports.new_id dispose s.keeper }

  -- Without peers, the service need no longer be kept.
  abbrev pub let_go : Service D → Service D
  let_go s = if is_empty s.peers then keep true s else s

  unfoldable pub on_bus_name_lost : Str → Service D → Service D
  unfolding clear_peer unref_lost without_name
  on_bus_name_lost name s = let_go (record s {
    adapters = unref_lost name s.peers s.adapters;
    peers = clear_peer name s.peers;
    caller_watchers = without_name name s.caller_watchers;
  })

  unfoldable pub on_adapter_disposed : ℕ → Service D → Service D
  unfolding clear_adapter
  on_adapter_disposed a s = let_go (record s { peers = clear_adapter a s.peers })

  unfoldable pub add_bus_name_watcher : BusType → Invocation → Service D → Service D
  unfolding contains
  add_bus_name_watcher msg_bus inv s =
      if contains s.caller_watchers inv.sender
      then s
      else record s { caller_watchers = inv.sender ∷ s.caller_watchers }
  add_bus_name_watcher _ inv s = s

  -- What an adapter does by itself, or a client or the main loop with it; disposing of it calls the service
  -- back.
  abbrev pub moved : ℕ → Disposable → Service D → Service D
  moved a e s =
      let s' = record s {
        adapters = put a (record (s.adapters a) { disposable = e }) s.adapters;
      } in
      if e.refs == 0 then on_adapter_disposed a s' else s'

  module _ (k : Kind D) where
    -- `gumd_dbus_…_adapter_new_with_connection`
    unfoldable pub new_adapter : ℕ → Service D → Option ℕ × Service D
    new_adapter h s =
        let n = s.object_counter in
        let d =
          if not (k.timeout == 0)
          then set_timeout exports.new_id k.timeout new_disposable
          else new_disposable in
        let a : Adapter = record { disposable = d; object = h; path = exports.object_path n } in
        let counted = record s { object_counter = suc n } in
        if exports.exported n
        then (some n, record counted { adapters = put n a s.adapters })
        else (none, counted)

    abbrev pub add_peer : Invocation → Option ℕ → Service D → Service D
    add_peer inv a s = record s {
      peers = s.peers ++ record { peer_name = get_sender s.dbus_server_type inv; adapter = a } ∷ [];
    }

    unfoldable pub create_and_cache : Invocation → ℕ → Service D → Option ℕ × Service D
    unfolding new_adapter add_bus_name_watcher get_sender
    create_and_cache inv h s =
        let (a, s1) = new_adapter h s in
        let s2 = add_peer inv a (if is_empty s1.peers then keep false s1 else s1) in
        (a, add_bus_name_watcher s2.dbus_server_type inv s2)

    -- The loop over the table. The outer `none` is the read through an adapter that is NULL.
    unfoldable pub find_adapter : Str → ℕ → Service D → List Peer → Option (Option ℕ)
    find_adapter name id s [] = some none
    find_adapter name id s (p ∷ rest) =
        let later = find_adapter name id s rest in
        if str_eq name p.peer_name
        then elim p.adapter [
          | none ↦ none
          | some a ↦
              if k.id_of s.daemon (s.adapters a).object == id
                && not (s.adapters a).disposable.delete_later
              then some (some a)
              else later
        ]
        else later

    unfoldable pub adapter_from_cache : Invocation → ℕ → Service D → Option (Option ℕ)
    unfolding find_adapter get_sender
    adapter_from_cache inv id s =
        if id == invalid_id
        then some none
        else find_adapter (get_sender s.dbus_server_type inv) id s s.peers

    -- What the daemon gives, with an adapter.
    unfoldable pub with_adapter :
        Invocation → Result ℕ × D → Service D → Result (Option ℕ) × Service D
    unfolding create_and_cache
    with_adapter inv (err e, d) s = (err e, record s { daemon = d })
    with_adapter inv (ok h, d) s =
        let (a, s') = create_and_cache inv h (record s { daemon = d }) in (ok a, s')

    unfoldable pub obtain : Invocation → ℕ → Option ℕ → Service D → Result (Option ℕ) × Service D
    unfolding with_adapter
    obtain inv id (some a) s = (ok (some a), s)
    obtain inv id none s = with_adapter inv (k.get_object id s.daemon) s

    unfoldable pub answer : Result (Option ℕ) → Service D → Reply
    answer (ok (some a)) s = object (some (s.adapters a).path)
    answer (ok none) s = failed k.not_found
    answer (err e) s = failed e

    -- The handler from the look into the cache on.
    unfoldable pub handle_cached :
        Invocation → ℕ → Option (Option ℕ) → Service D → Option (Reply × Service D)
    unfolding obtain answer
    handle_cached inv id none s = none
    handle_cached inv id (some found) s =
        let (r, s') = obtain inv id found s in some (answer r s', keep true s')

    unfoldable pub handle_get : Invocation → ℕ → Service D → Option (Reply × Service D)
    unfolding handle_cached adapter_from_cache
    handle_get inv id s =
        let s1 = keep false s in handle_cached inv id (adapter_from_cache inv id s1) s1

    unfoldable pub handle_get_by_name :
        Invocation → Option Str → Service D → Option (Reply × Service D)
    unfolding handle_cached adapter_from_cache
    handle_get_by_name inv name s =
        let s1 = keep false s in
        let (id, d) = k.id_by_name name s1.daemon in
        let s2 = record s1 { daemon = d } in handle_cached inv id (adapter_from_cache inv id s2) s2

    abbrev pub path_at : Option ℕ → Service D → Option Str
    path_at none s = none
    path_at (some a) s = some (s.adapters a).path

    unfoldable pub handle_create_new : Invocation → Service D → Reply × Service D
    unfolding create_and_cache
    handle_create_new inv s =
        let s1 = keep false s in
        let (h, d) = k.new_object s1.daemon in
        let (a, s2) = create_and_cache inv h (record s1 { daemon = d }) in
        (object (path_at a s2), keep true s2)
