-- ===== src/Tests/Daemons.antt =====
-- A daemon in a concrete system.
use platform_upstream_gumd.Common.{◌≡◌, refl, false, none, []}
use platform_upstream_gumd.Group.{new_object}
use platform_upstream_gumd.User.{new_user}
use platform_upstream_gumd.Objects.{Objects}
use platform_upstream_gumd.Daemon.{
  Daemon, user_deleted, user_updated, group_deleted, group_updated, delete_user, update_user,
  delete_group, update_group_object, add_group,
}
use platform_upstream_gumd.Daemon.Requests.{
  gets_user, deletes_user, handle, Safe, Served, started, served, Served-Safe,
}
use platform_upstream_gumd.Daemon.Signals.{Signalled, requests-Signalled}
use platform_upstream_gumd.Tests.Glib.{byte_strv}
use platform_upstream_gumd.Tests.Groups.{config, os}
use platform_upstream_gumd.Tests.Accounts.{with_users}

abbrev no_objects : {O : Type 0} → O → Objects O
no_objects o = record { at = λ _. o; refs = λ _. 0; next = 0; table = λ _. none }

abbrev pub fresh : Daemon
fresh = record {
  users = no_objects new_user;
  groups = no_objects new_object;
  signals = [];
  world = with_users;
}

-- After a user has been looked up and deleted.
abbrev used : Daemon
used =
    handle byte_strv os config (deletes_user 0 false)
      (handle byte_strv os config (gets_user 5001) fresh)

used-Served : Served byte_strv os config used
used-Served =
    served (deletes_user 0 false) tt
      (served (gets_user 5001) tt (started fresh (λ id. refl) (λ id. refl)))

Served-Safe_example : Safe used
Served-Safe_example = Served-Safe byte_strv os config used-Served

requests-Signalled_example :
    (let (r, d') = delete_user byte_strv os config 0 false used in
      Signalled user_deleted (used.users.at 0).pw.pw_uid r used.signals d'.signals)
    × (let (r, d') = update_user byte_strv os config 0 used in
        Signalled user_updated (d'.users.at 0).pw.pw_uid r used.signals d'.signals)
    × (let (r, d') = delete_group os config 0 used in
        Signalled group_deleted (used.groups.at 0).group.gr_gid r used.signals d'.signals)
    × (let (r, d') = update_group_object os config 0 used in
        Signalled group_updated (d'.groups.at 0).group.gr_gid r used.signals d'.signals)
    × ((add_group os config 0 used).1.signals ≡ used.signals)
requests-Signalled_example = requests-Signalled byte_strv os config 0 false used
