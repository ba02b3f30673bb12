-- ===== src/Client/Users.antt =====
-- src/lib/gum-user.c: the functions of a user of the library.
use platform_upstream_gumd.Common.{ℕ, Bool, Option, none, some, Str}
use platform_upstream_gumd.StringUtils.{Strv}
use platform_upstream_gumd.World.{Config, Os}
use platform_upstream_gumd.User.{new_user}
use platform_upstream_gumd.Objects.{allocate}
use platform_upstream_gumd.Daemon.{
  Daemon, get_user, get_user_by_name, add_user, delete_user, update_user,
}
use platform_upstream_gumd.Client.{Reply, Client, asked_new, start, start_on_object}
use platform_upstream_gumd.Client.Sync.{Handle, Site, create_sync, get_sync, act_sync}

-- The methods of the service of the users, and of a user.
pub data UserMethod : Type 0 where
  create_new_user : UserMethod
  get_user_of : ℕ → UserMethod
  get_user_named : Str → UserMethod
  add_this_user : UserMethod
  delete_this_user : Bool → UserMethod
  update_this_user : UserMethod

unfoldable pub gum_user_create : Bool → Option ℕ → Option (Client UserMethod)
unfolding start
gum_user_create available callback = asked_new available callback create_new_user

unfoldable pub gum_user_get : Bool → ℕ → Option ℕ → Option (Client UserMethod)
unfolding start
gum_user_get available uid callback = asked_new available callback (get_user_of uid)

unfoldable pub gum_user_get_by_name : Bool → Option Str → Option ℕ → Option (Client UserMethod)
unfolding start
gum_user_get_by_name available none callback = none
gum_user_get_by_name available (some username) callback =
    asked_new available callback (get_user_named username)

unfoldable pub gum_user_add : Client UserMethod → Option ℕ → Bool × Client UserMethod
unfolding start_on_object
gum_user_add self callback = start_on_object callback add_this_user self

unfoldable pub gum_user_delete : Client UserMethod → Bool → Option ℕ → Bool × Client UserMethod
unfolding start_on_object
gum_user_delete self rem_home_dir callback =
    start_on_object callback (delete_this_user rem_home_dir) self

unfoldable pub gum_user_update : Client UserMethod → Option ℕ → Bool × Client UserMethod
unfolding start_on_object
gum_user_update self callback = start_on_object callback update_this_user self

module _ (glib : Strv) (os : Os) (c : Config) where
  module _ {R : Type 0} (call : UserMethod → Option Str → R → Reply × R) (available : Bool)
      (proxied : Str → Bool) where
    unfoldable pub gum_user_create_sync : Bool → Site Daemon R → Option Handle × Site Daemon R
    unfolding create_sync
    gum_user_create_sync =
        create_sync call available proxied
          (λ d. (d.users.next, record d { users = allocate new_user d.users })) create_new_user

    unfoldable pub gum_user_get_sync : ℕ → Bool → Site Daemon R → Option Handle × Site Daemon R
    unfolding get_sync
    gum_user_get_sync uid =
        get_sync call available proxied (get_user glib os c uid) (get_user_of uid)

    unfoldable pub gum_user_get_by_name_sync :
        Option Str → Bool → Site Daemon R → Option Handle × Site Daemon R
    unfolding get_sync
    gum_user_get_by_name_sync none offline s = (none, s)
    gum_user_get_by_name_sync (some username) offline s =
        get_sync call available proxied (get_user_by_name glib os c (some username))
          (get_user_named username) offline s

    unfoldable pub gum_user_add_sync : Handle → Site Daemon R → Bool × Site Daemon R
    unfolding act_sync
    gum_user_add_sync = act_sync call available proxied (add_user glib os c) add_this_user

    unfoldable pub gum_user_delete_sync : Handle → Bool → Site Daemon R → Bool × Site Daemon R
    unfolding act_sync
    gum_user_delete_sync self rem_home_dir =
        act_sync call available proxied (λ h. delete_user glib os c h rem_home_dir)
          (delete_this_user rem_home_dir) self

    unfoldable pub gum_user_update_sync : Handle → Site Daemon R → Bool × Site Daemon R
    unfolding act_sync
    gum_user_update_sync = act_sync call available proxied (update_user glib os c) update_this_user
