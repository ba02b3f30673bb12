-- ===== src/Tests/Servers.antt =====
-- A server with two connections, and one on the message bus.
use platform_upstream_gumd.Common.{
  ℕ, ◌+◌, ◌≤◌, ◌≡◌, ◌≢◌, refl, true, false, none, some, [], ◌⊎◌, inr, arith,
}
use platform_upstream_gumd.Server.{
  Server, new_server, lookup, start_services, on_user_service_dispose, on_connection_closed,
  dispose, count, serving, Reached, connected, user_disposed, add_user_watchers, add_group_watchers,
  steal, remove,
}
use platform_upstream_gumd.Server.Cleared.{HasService, dispose-Cleared, on_connection_closed-Closed}
use platform_upstream_gumd.Server.MsgBus.{
  MsgBus, started, on_bus_acquired, on_user_interface_dispose, on_group_interface_dispose,
  close_server, Runs, acquires, user_gone, group_gone, Runs-Closes,
}

abbrev two_connected : Server
two_connected = start_services 2 21 22 (start_services 1 11 12 new_server)

-- The users' service of the first connection has disposed of itself.
abbrev one_left : Server
one_left = on_user_service_dispose 11 two_connected

one_left-Reached : Reached one_left
unfolding start_services add_user_watchers add_group_watchers lookup remove count serving
one_left-Reached =
    user_disposed 11
      (connected 2 21 22 (connected 1 11 12 Reached.begun refl refl (ground arith) refl refl) refl
        refl (ground arith) refl refl)
      (ground arith)

dispose-Cleared_example :
    ((dispose one_left).weak_refs ≡ [])
    × ((v : ℕ)
        → count v (dispose one_left).dropped
          ≡ count v one_left.dropped
            + serving v one_left.user_services
            + serving v one_left.group_services)
    × ((c : ℕ) → HasService c one_left → count c (dispose one_left).handlers ≡ 0)
dispose-Cleared_example = dispose-Cleared one_left-Reached

on_connection_closed-Closed_example :
    let t = on_connection_closed 1 one_left in
    (lookup 1 t.user_services ≡ none)
    × (lookup 1 t.group_services ≡ none)
    × (count 1 t.handlers ≡ 0)
    × ((d : ℕ)
        → d ≢ 1
        → (lookup d t.user_services ≡ lookup d one_left.user_services)
          × (lookup d t.group_services ≡ lookup d one_left.group_services)
          × (count d t.handlers ≡ count d one_left.handlers))
unfolding start_services on_user_service_dispose add_user_watchers add_group_watchers lookup remove
    steal
on_connection_closed-Closed_example = on_connection_closed-Closed 1 one_left (inr (ground arith))

abbrev both_gone : MsgBus
both_gone = on_user_interface_dispose (on_group_interface_dispose (on_bus_acquired started))

both_gone-Runs : Runs both_gone
unfolding on_bus_acquired on_group_interface_dispose
both_gone-Runs = user_gone (group_gone (acquires Runs.begun refl) refl) refl

Runs-Closes_example :
    (both_gone.closing ≤ 1)
    × ((both_gone.user_service ≡ true) ⊎ (both_gone.group_service ≡ true)
        → (both_gone.refs ≡ 1) × (both_gone.closing ≡ 0) × (both_gone.name_owned ≡ true))
    × (both_gone.closing ≢ 0
        → (t : MsgBus) × (close_server both_gone ≡ some t)
          × (t.refs ≡ 0)
          × (t.closing ≡ 0)
          × (t.name_owned ≡ false))
Runs-Closes_example = Runs-Closes both_gone-Runs
