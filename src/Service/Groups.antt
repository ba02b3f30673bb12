-- ===== src/Service/Groups.antt =====
-- src/daemon/dbus/gumd-dbus-group-service-adapter.c, gumd-dbus-group-adapter.c: the service and the
-- adapters of the daemon's groups.
use platform_upstream_gumd.Common.{ℕ, Bool, Option, Str}
use platform_upstream_gumd.Error.{group_not_found}
use platform_upstream_gumd.Objects.{allocate}
use platform_upstream_gumd.World.{Config, Os}
use platform_upstream_gumd.Group.{new_object}
use platform_upstream_gumd.Group.Membership.{get_gid_by_name}
use platform_upstream_gumd.Daemon.{
  Daemon, get_group, add_group, delete_group, update_group_object, add_group_member,
  delete_group_member,
}
use platform_upstream_gumd.Service.{
  Kind, Exports, Invocation, Service, Reply, handle_get, handle_get_by_name, handle_create_new,
  on_bus_name_lost, on_adapter_disposed, create_and_cache, adapter_from_cache,
}
use platform_upstream_gumd.Service.Requests.{Answer, added, done, handle, handle_deletion}

module _ (os : Os) (c : Config) where
  abbrev pub gid_by_name : Option Str → Daemon → ℕ × Daemon
  gid_by_name name d =
      let (gid, t) = get_gid_by_name os name (record { self = new_object; world = d.world }) in
      (gid, record d { world = t.world })

  abbrev pub groups : ℕ → Kind Daemon
  groups timeout = record {
    id_of = λ d h. (d.groups.at h).group.gr_gid;
    get_object = get_group os c;
    id_by_name = gid_by_name;
    new_object = λ d. (d.groups.next, record d { groups = allocate new_object d.groups });
    not_found = group_not_found;
    timeout = timeout;
  }

  module _ (exports : Exports) (timeout : ℕ) where
    unfoldable pub handle_create_new_group : Invocation → Service Daemon → Reply × Service Daemon
    unfolding handle_create_new
    handle_create_new_group = handle_create_new exports (groups timeout)

    unfoldable pub handle_get_group :
        Invocation → ℕ → Service Daemon → Option (Reply × Service Daemon)
    unfolding handle_get
    handle_get_group = handle_get exports (groups timeout)

    unfoldable pub handle_get_group_by_name :
        Invocation → Option Str → Service Daemon → Option (Reply × Service Daemon)
    unfolding handle_get_by_name
    handle_get_group_by_name = handle_get_by_name exports (groups timeout)

    unfoldable pub create_and_cache_group :
        Invocation → ℕ → Service Daemon → Option ℕ × Service Daemon
    unfolding create_and_cache
    create_and_cache_group = create_and_cache exports (groups timeout)

    unfoldable pub group_from_cache : Invocation → ℕ → Service Daemon → Option (Option ℕ)
    unfolding adapter_from_cache
    group_from_cache = adapter_from_cache exports (groups timeout)

    unfoldable pub on_group_peer_lost : Str → Service Daemon → Service Daemon
    unfolding on_bus_name_lost
    on_group_peer_lost = on_bus_name_lost exports

    unfoldable pub on_group_adapter_disposed : ℕ → Service Daemon → Service Daemon
    unfolding on_adapter_disposed
    on_group_adapter_disposed = on_adapter_disposed exports

    unfoldable pub handle_add_group : ℕ → Service Daemon → Answer × Service Daemon
    unfolding handle
    handle_add_group a s =
        handle exports a (add_group os c)
          (λ _ d. added (d.groups.at (s.adapters a).object).group.gr_gid) s

    unfoldable pub handle_delete_group : ℕ → Service Daemon → Answer × Service Daemon
    unfolding handle_deletion
    handle_delete_group a = handle_deletion exports a (delete_group os c)

    unfoldable pub handle_update_group : ℕ → Service Daemon → Answer × Service Daemon
    unfolding handle
    handle_update_group a = handle exports a (update_group_object os c) (λ _ d. done)

    unfoldable pub handle_add_member : ℕ → ℕ → Bool → Service Daemon → Answer × Service Daemon
    unfolding handle
    handle_add_member a uid as_admin =
        handle exports a (λ h. add_group_member os c h uid as_admin) (λ _ d. done)

    unfoldable pub handle_delete_member : ℕ → ℕ → Service Daemon → Answer × Service Daemon
    unfolding handle
    handle_delete_member a uid =
        handle exports a (λ h. delete_group_member os c h uid) (λ _ d. done)
