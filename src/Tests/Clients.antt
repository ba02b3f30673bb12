-- ===== src/Tests/Clients.antt =====
-- Clients of a bus on which every path has an object, one of them of a service that cannot be reached.
use platform_upstream_gumd.Common.{
  ℕ, suc, ◌+◌, ◌≤◌, ◌≡◌, ◌≢◌, refl, Bool, true, Option, none, some, List, [], ◌∷◌, Str, codes,
  length, arith,
}
use platform_upstream_gumd.Error.{user_not_found}
use platform_upstream_gumd.Daemon.{Daemon}
use platform_upstream_gumd.Service.{Exports, Service, msg_bus}
use platform_upstream_gumd.Service.Uses.{new_with_connection}
use platform_upstream_gumd.Service.Users.{
  users, handle_create_new_user, handle_add_user, handle_delete_user, handle_update_user,
}
use platform_upstream_gumd.Tests.Glib.{byte_strv}
use platform_upstream_gumd.Tests.Groups.{config, os}
use platform_upstream_gumd.Tests.Daemons.{fresh}
use platform_upstream_gumd.Tests.Disposables.{number}
use platform_upstream_gumd.Client.{
  transport, remote, Reply, path, finished, Client, new_client, start, dispose, Ordered, created,
  started,
}
use platform_upstream_gumd.Client.Turns.{HasOp, Ordered-Settled}
use platform_upstream_gumd.Client.Rounds.{round, round_called}
use platform_upstream_gumd.Client.Overlap.{answers, both, called_of, dispatch_both, overlap_misled}
use platform_upstream_gumd.Client.Services.{
  UserService, no_proxy, run_proxy_callback, trigger_service_callback, gum_user_service_create,
  create_called,
}
use platform_upstream_gumd.Client.Sync.{Site, local_at, proxy_at}
use platform_upstream_gumd.Client.Agreed.{sent, here, there, sync_agrees}
use platform_upstream_gumd.Client.Users.{
  UserMethod, create_new_user, add_this_user, delete_this_user, update_this_user, gum_user_add_sync,
  gum_user_delete_sync, gum_user_update_sync,
}

-- An id that the newest source does not have.
abbrev next_id : List ℕ → ℕ
next_id [] = 1
next_id (i ∷ rest) = suc i

next_id_positive : (l : List ℕ) → next_id l ≢ 0
next_id_positive [] = ground arith
next_id_positive (i ∷ rest) = ground arith

abbrev reachable : Str → Bool
reachable p = true

abbrev asking : Client UserMethod
asking = start (some 4) create_new_user new_client

asking-Ordered : Ordered next_id reachable asking
asking-Ordered = started (some 4) create_new_user created (refl, refl)

Ordered-Settled_example :
    HasOp asking × (length asking.calls + length asking.idle ≤ 1) × ((dispose asking).idle ≡ [])
unfolding start
Ordered-Settled_example = Ordered-Settled next_id reachable next_id_positive asking-Ordered

round_called_example :
    (d : Client UserMethod) × ((round next_id reachable
          (some 4)
          create_new_user
          (path (codes "/u1"))
          new_client
        ≡ some d)
      × ((d.called ≡ (4, none) ∷ [])
          × ((d.dbus_object ≡ some (codes "/u1")) × ((d.calls ≡ []) × (d.idle ≡ [])))))
round_called_example =
    round_called next_id reachable (some 4) create_new_user (path (codes "/u1")) new_client
      (refl, refl) refl

overlap_misled_example :
    (d : Client UserMethod) × ((answers next_id reachable user_not_found update_this_user
          (record (both next_id reachable 4 9 add_this_user update_this_user new_client) {
            calls = update_this_user ∷ [];
          })
        ≡ some d)
      × ((d.idle ≡ 2 ∷ 1 ∷ [])
          × ((called_of next_id reachable (dispatch_both next_id reachable 1 2 d)
                ≡ some ((9, some (remote user_not_found)) ∷ (9, some (remote user_not_found)) ∷ []))
              × ((dispose d).idle ≡ 1 ∷ []))))
overlap_misled_example =
    overlap_misled next_id reachable 4 9 add_this_user update_this_user user_not_found new_client
      refl (ground arith) (ground arith)

abbrev exports : Exports
exports = record { object_path = λ n. n ∷ []; exported = λ n. true; new_id = number }

abbrev remote_service : Service Daemon
remote_service =
    (handle_create_new_user byte_strv os config exports 0
      (record { sender = codes ":1.5"; socket = [] })
      (new_with_connection exports (users byte_strv os config 0) msg_bus 5 fresh)).1

-- The bus has the one adapter of `remote_service`.
abbrev deliver : UserMethod → Option Str → Service Daemon → Reply × Service Daemon
deliver add_this_user (some p) t = sent (handle_add_user byte_strv os config exports 0 0 t)
deliver (delete_this_user rem_home_dir) (some p) t =
    sent (handle_delete_user byte_strv os config exports 0 0 rem_home_dir t)
deliver update_this_user (some p) t = sent (handle_update_user byte_strv os config exports 0 0 t)
deliver method p t = (finished, t)

abbrev user_site : Site Daemon (Service Daemon)
user_site = record { daemon = remote_service.daemon; remote = remote_service }

sync_agrees_example :
    let mine = local_at (remote_service.adapters 0).object in
    let theirs = proxy_at (codes "/u1") in
    (here (gum_user_add_sync byte_strv os config deliver true reachable mine user_site)
      ≡ there (gum_user_add_sync byte_strv os config deliver true reachable theirs user_site))
    × ((here (gum_user_delete_sync byte_strv os config deliver true reachable mine true user_site)
          ≡ there (
              gum_user_delete_sync byte_strv os config deliver true reachable theirs true
                user_site))
        × (here (gum_user_update_sync byte_strv os config deliver true reachable mine user_site)
            ≡ there
                (gum_user_update_sync byte_strv os config deliver true reachable theirs user_site)))
sync_agrees_example =
    sync_agrees byte_strv os config exports 0 deliver true reachable (codes "/u1") 0 user_site true
      (record { adds = λ t. refl; deletes = λ b t. refl; updates = λ t. refl }) refl

abbrev unused : UserService
unused = record { base = new_client; dbus_proxy_cb_id = 0 }

create_called_example :
    let t =
      run_proxy_callback next_id none
        (no_proxy transport)
        (gum_user_service_create next_id (some 4) unused) in
    (d : Client (Option (List Str))) × ((trigger_service_callback 1 t.base ≡ some d)
      × ((d.called ≡ (4, some transport) ∷ []) × ((d.dbus_object ≡ none) × (d.idle ≡ []))))
create_called_example = create_called next_id 4 none (no_proxy transport) unused refl refl
