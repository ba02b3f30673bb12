-- ===== src/Client/Groups.antt =====
-- src/lib/gum-group.c: the functions of a group of the library.
use platform_upstream_gumd.Common.{ℕ, Bool, Option, none, some, Str}
use platform_upstream_gumd.World.{Config, Os}
use platform_upstream_gumd.Group.{new_object}
use platform_upstream_gumd.Objects.{allocate}
use platform_upstream_gumd.Daemon.{
  Daemon, get_group, get_group_by_name, add_group, delete_group, update_group_object,
  add_group_member, delete_group_member,
}
use platform_upstream_gumd.Client.{Reply, Client, asked_new, start, start_on_object}
use platform_upstream_gumd.Client.Sync.{Handle, Site, create_sync, get_sync, act_sync}

-- The methods of the service of the groups, and of a group.
pub data GroupMethod : Type 0 where
  create_new_group : GroupMethod
  get_group_of : ℕ → GroupMethod
  get_group_named : Str → GroupMethod
  add_this_group : GroupMethod
  delete_this_group : GroupMethod
  update_this_group : GroupMethod
  add_member : ℕ → Bool → GroupMethod
  delete_member : ℕ → GroupMethod

unfoldable pub gum_group_create : Bool → Option ℕ → Option (Client GroupMethod)
unfolding start
gum_group_create available callback = asked_new available callback create_new_group

unfoldable pub gum_group_get : Bool → ℕ → Option ℕ → Option (Client GroupMethod)
unfolding start
gum_group_get available gid callback = asked_new available callback (get_group_of gid)

unfoldable pub gum_group_get_by_name : Bool → Option Str → Option ℕ → Option (Client GroupMethod)
unfolding start
gum_group_get_by_name available none callback = none
gum_group_get_by_name available (some groupname) callback =
    asked_new available callback (get_group_named groupname)

unfoldable pub gum_group_add : Client GroupMethod → Option ℕ → Bool × Client GroupMethod
unfolding start_on_object
gum_group_add self callback = start_on_object callback add_this_group self

unfoldable pub gum_group_delete : Client GroupMethod → Option ℕ → Bool × Client GroupMethod
unfolding start_on_object
gum_group_delete self callback = start_on_object callback delete_this_group self

unfoldable pub gum_group_update : Client GroupMethod → Option ℕ → Bool × Client GroupMethod
unfolding start_on_object
gum_group_update self callback = start_on_object callback update_this_group self

unfoldable pub gum_group_add_member :
    Client GroupMethod → ℕ → Bool → Option ℕ → Bool × Client GroupMethod
unfolding start_on_object
gum_group_add_member self uid add_as_admin callback =
    start_on_object callback (add_member uid add_as_admin) self

unfoldable pub gum_group_delete_member :
    Client GroupMethod → ℕ → Option ℕ → Bool × Client GroupMethod
unfolding start_on_object
gum_group_delete_member self uid callback = start_on_object callback (delete_member uid) self

module _ (os : Os) (c : Config) where
  module _ {R : Type 0} (call : GroupMethod → Option Str → R → Reply × R) (available : Bool)
      (proxied : Str → Bool) where
    unfoldable pub gum_group_create_sync : Bool → Site Daemon R → Option Handle × Site Daemon R
    unfolding create_sync
    gum_group_create_sync =
        create_sync call available proxied
          (λ d. (d.groups.next, record d { groups = allocate new_object d.groups }))
          create_new_group

    unfoldable pub gum_group_get_sync : ℕ → Bool → Site Daemon R → Option Handle × Site Daemon R
    unfolding get_sync
    gum_group_get_sync gid = get_sync call available proxied (get_group os c gid) (get_group_of gid)

    unfoldable pub gum_group_get_by_name_sync :
        Option Str → Bool → Site Daemon R → Option Handle × Site Daemon R
    unfolding get_sync
    gum_group_get_by_name_sync none offline s = (none, s)
    gum_group_get_by_name_sync (some groupname) offline s =
        get_sync call available proxied (get_group_by_name os c (some groupname))
          (get_group_named groupname) offline s

    unfoldable pub gum_group_add_sync : Handle → Site Daemon R → Bool × Site Daemon R
    unfolding act_sync
    gum_group_add_sync = act_sync call available proxied (add_group os c) add_this_group

    unfoldable pub gum_group_delete_sync : Handle → Site Daemon R → Bool × Site Daemon R
    unfolding act_sync
    gum_group_delete_sync self =
        act_sync call available proxied (delete_group os c) delete_this_group self

    unfoldable pub gum_group_update_sync : Handle → Site Daemon R → Bool × Site Daemon R
    unfolding act_sync
    gum_group_update_sync =
        act_sync call available proxied (update_group_object os c) update_this_group

    unfoldable pub gum_group_add_member_sync :
        Handle → ℕ → Bool → Site Daemon R → Bool × Site Daemon R
    unfolding act_sync
    gum_group_add_member_sync self uid add_as_admin =
        act_sync call available proxied (λ h. add_group_member os c h uid add_as_admin)
          (add_member uid add_as_admin) self

    unfoldable pub gum_group_delete_member_sync : Handle → ℕ → Site Daemon R → Bool × Site Daemon R
    unfolding act_sync
    gum_group_delete_member_sync self uid =
        act_sync call available proxied (λ h. delete_group_member os c h uid) (delete_member uid)
          self
