-- ===== src/Service/Users.antt =====
-- src/daemon/dbus/gumd-dbus-user-service-adapter.c, gumd-dbus-user-adapter.c: the service and the
-- adapters of the daemon's users.
use platform_upstream_gumd.Common.{ℕ, Bool, true, false, Option, List, Str}
use platform_upstream_gumd.Error.{Result, user_not_found}
use platform_upstream_gumd.Objects.{allocate}
use platform_upstream_gumd.StringUtils.{Strv}
use platform_upstream_gumd.World.{Config, Os}
use platform_upstream_gumd.User.{new_user}
use platform_upstream_gumd.User.Listing.{get_uid_by_name, get_user_list}
use platform_upstream_gumd.Daemon.{Daemon, get_user, add_user, delete_user, update_user}
use platform_upstream_gumd.Service.{
  keep, Kind, Exports, Invocation, Service, Reply, handle_get, handle_get_by_name,
  handle_create_new,
}
use platform_upstream_gumd.Service.Requests.{Answer, added, done, handle, handle_deletion}

module _ (glib : Strv) (os : Os) (c : Config) where
  abbrev pub uid_by_name : Option Str → Daemon → ℕ × Daemon
  uid_by_name name d =
      let (uid, t) = get_uid_by_name os name (record { self = new_user; world = d.world }) in
      (uid, record d { world = t.world })

  abbrev pub users : ℕ → Kind Daemon
  users timeout = record {
    id_of = λ d h. (d.users.at h).pw.pw_uid;
    get_object = get_user glib os c;
    id_by_name = uid_by_name;
    new_object = λ d. (d.users.next, record d { users = allocate new_user d.users });
    not_found = user_not_found;
    timeout = timeout;
  }

  module _ (exports : Exports) (timeout : ℕ) where
    unfoldable pub handle_create_new_user : Invocation → Service Daemon → Reply × Service Daemon
    unfolding handle_create_new
    handle_create_new_user = handle_create_new exports (users timeout)

    unfoldable pub handle_get_user :
        Invocation → ℕ → Service Daemon → Option (Reply × Service Daemon)
    unfolding handle_get
    handle_get_user = handle_get exports (users timeout)

    unfoldable pub handle_get_user_by_name :
        Invocation → Option Str → Service Daemon → Option (Reply × Service Daemon)
    unfolding handle_get_by_name
    handle_get_user_by_name = handle_get_by_name exports (users timeout)

    unfoldable pub handle_get_user_list :
        Option (List Str) → Service Daemon → Result (List ℕ) × Service Daemon
    unfolding get_user_list
    handle_get_user_list types s =
        let s1 = keep exports false s in
        let (r, t) =
          get_user_list glib c os types (record { self = new_user; world = s1.daemon.world }) in
        (r, keep exports true (record s1 { daemon = record s1.daemon { world = t.world } }))

    unfoldable pub handle_add_user : ℕ → Service Daemon → Answer × Service Daemon
    unfolding handle
    handle_add_user a s =
        handle exports a (add_user glib os c)
          (λ _ d. added (d.users.at (s.adapters a).object).pw.pw_uid) s

    unfoldable pub handle_delete_user : ℕ → Bool → Service Daemon → Answer × Service Daemon
    unfolding handle_deletion
    handle_delete_user a rem_home_dir =
        handle_deletion exports a (λ h. delete_user glib os c h rem_home_dir)

    unfoldable pub handle_update_user : ℕ → Service Daemon → Answer × Service Daemon
    unfolding handle
    handle_update_user a = handle exports a (update_user glib os c) (λ _ d. done)
