-- ===== src/Service/Uses.antt =====
-- A service from its start, and all that may happen to it.
use platform_upstream_gumd.Common.{
  ℕ, ◌≡◌, ◌≢◌, not, Option, some, List, [], ◌∷◌, ◌++◌, Str, ◌==◌, if◌then◌else◌,
}
use platform_upstream_gumd.Disposable.{
  Source, Disposable, Step, new_disposable, set_timeout, dispatch,
}
use platform_upstream_gumd.Service.{
  BusType, p2p, Kind, Exports, Invocation, Peer, Service, Reply, moved, handle_get,
  handle_get_by_name, handle_create_new, on_bus_name_lost,
}

module _ {D : Type 0} (exports : Exports) (k : Kind D) where
  pub data Has (a : ℕ) : List Peer → Type 0 where
    here : {p : Peer} {rest : List Peer} → p.adapter ≡ some a → Has a (p ∷ rest)
    there : {p : Peer} {rest : List Peer} → Has a rest → Has a (p ∷ rest)

  -- The requests of peers, the peers that leave, the adapters that move by themselves, what else happens
  -- to the daemon, and the main loop's calls of the service's own timer.
  pub data Served (s : Service D) : Service D → Type 0 where
    gets :
        (inv : Invocation) (id : ℕ) (r : Reply) (t : Service D)
        → handle_get exports k inv id s ≡ some (r, t)
        → Served s t
    gets_by_name :
        (inv : Invocation) (name : Option Str) (r : Reply) (t : Service D)
        → handle_get_by_name exports k inv name s ≡ some (r, t)
        → Served s t
    creates : (inv : Invocation) → Served s (handle_create_new exports k inv s).1
    loses : (name : Str) → Served s (on_bus_name_lost exports name s)
    moves :
        (a : ℕ) (e : Disposable)
        → Has a s.peers
        → Step exports.new_id (s.adapters a).disposable e
        → Served s (moved exports a e s)
    changes : (d : D) → Served s (record s { daemon = d })
    ticks :
        (src : Source) (before after : List Source)
        → s.keeper.sources ≡ before ++ src ∷ after
        → Served s (record s { keeper = dispatch src s.keeper })

  abbrev pub started : BusType → Disposable → D → Service D
  started bus_type keeper d = record {
    dbus_server_type = bus_type;
    peers = [];
    caller_watchers = [];
    keeper = keeper;
    adapters = λ a. record { disposable = new_disposable; object = 0; path = [] };
    object_counter = 0;
    daemon = d;
  }

  -- `gumd_dbus_…_service_adapter_new_with_connection`: the timeout is that of the daemon, and none on a
  -- connection between peers.
  unfoldable pub new_with_connection : BusType → ℕ → D → Service D
  new_with_connection p2p timeout d = started p2p new_disposable d
  new_with_connection bus_type timeout d =
      started bus_type
        (if not (timeout == 0)
          then set_timeout exports.new_id timeout new_disposable
          else new_disposable)
        d

  pub data Reached (bus_type : BusType) (timeout : ℕ) (d : D) : Service D → Type 0 where
    begun : Reached bus_type timeout d (new_with_connection bus_type timeout d)
    then_served :
        {s t : Service D}
        → Reached bus_type timeout d s
        → s.keeper.refs ≢ 0
        → Served s t
        → Reached bus_type timeout d t
