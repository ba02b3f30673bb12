-- ===== src/Daemon.antt =====
-- src/daemon/core/gumd-daemon.c: the daemon, which keeps a table of the user and group objects that are in
-- use, passes requests on to them and emits signals. The check of the daemon and object pointers, which its
-- adapters always give, has no part in the model.
pub mod Requests
pub mod Signals
use platform_upstream_gumd.Common.{
  ℕ, suc, ◌+◌, ◌-◌, ◌≡◌, ◌≢◌, Bool, true, false, not, ◌&&◌, Option, none, some, List, [], ◌∷◌, Str,
  ◌==◌, if◌then◌else◌,
}
use platform_upstream_gumd.Error.{Error, Result, ok, err}
use platform_upstream_gumd.Objects.{Objects, take_ref, remember, insert_new, set_object}
use platform_upstream_gumd.StringUtils.{Strv}
use platform_upstream_gumd.File.{invalid_id}
use platform_upstream_gumd.World.{Config, Os, World, State}
use platform_upstream_gumd.Group.{GroupObject, new_object}
use platform_upstream_gumd.Group.Operations.{
  group_add, group_delete, group_update, group_add_member, group_delete_member,
}
use platform_upstream_gumd.Group.Membership.{new_by_gid, get_gid_by_name}
use platform_upstream_gumd.User.{UserObject, new_user}
use platform_upstream_gumd.User.Listing.{get_uid_by_name}
use platform_upstream_gumd.User.Operations.{user_add, user_delete, user_update, user_new_by_uid}

pub data Signal : Type 0 where
  user_added user_deleted user_updated group_added group_deleted group_updated : ℕ → Signal

pub record Daemon : Type 0 where
  pub users : Objects UserObject
  pub groups : Objects GroupObject
  pub signals : List Signal
  pub world : World

abbrev pub on_user : Daemon → ℕ → State UserObject
on_user d h = record { self = d.users.at h; world = d.world }

abbrev pub on_group : Daemon → ℕ → State GroupObject
on_group d h = record { self = d.groups.at h; world = d.world }

-- What a constructor has given is kept in the table.
abbrev pub remember_user : ℕ → Option UserObject × State UserObject → Daemon → Result ℕ × Daemon
remember_user uid (o, t) d =
    let (r, users) = remember uid o Error.user_not_found d.users in
    (r, record d { users = users; world = t.world })

abbrev remember_group : ℕ → Option GroupObject × State GroupObject → Daemon → Result ℕ × Daemon
remember_group gid (o, t) d =
    let (r, groups) = remember gid o Error.group_not_found d.groups in
    (r, record d { groups = groups; world = t.world })

-- What an operation on the object at `h` has left.
abbrev pub user_done : ℕ → State UserObject → Daemon → Daemon
user_done h t d = record d { users = set_object h t.self d.users; world = t.world }

abbrev pub group_done : ℕ → State GroupObject → Daemon → Daemon
group_done h t d = record d { groups = set_object h t.self d.groups; world = t.world }

-- `if (id != INVALID) g_signal_emit (…)`
unfoldable pub emit : (ℕ → Signal) → ℕ → Daemon → Daemon
emit signal id d =
    if not (id == invalid_id) then record d { signals = signal id ∷ d.signals } else d

module _ (glib : Strv) (os : Os) (c : Config) where
  -- The second argument is what the table has for the uid.
  unfoldable pub get_user_from : ℕ → Option ℕ → Daemon → Result ℕ × Daemon
  unfolding take_ref remember
  get_user_from uid (some h) d = (ok h, record d { users = take_ref h d.users })
  get_user_from uid none d =
      remember_user uid
        (user_new_by_uid glib os c uid (record { self = new_user; world = d.world })) d

  unfoldable pub get_user : ℕ → Daemon → Result ℕ × Daemon
  unfolding get_user_from
  get_user uid d = get_user_from uid (d.users.table uid) d

  unfoldable pub get_user_by_name : Option Str → Daemon → Result ℕ × Daemon
  unfolding get_user
  get_user_by_name username d =
      let (uid, t) = get_uid_by_name os username (record { self = new_user; world = d.world }) in
      let d' = record d { world = t.world } in
      if uid == invalid_id then (err Error.user_not_found, d') else get_user uid d'

  -- What is left of adding the object at `h`; TRUE comes with the value of `*error`.
  unfoldable pub user_added_at :
      ℕ → Result (ℕ × Option Error) × State UserObject → Daemon → Result (Option Error) × Daemon
  unfolding insert_new
  user_added_at h (err e, t) d = (err e, user_done h t d)
  user_added_at h (ok (uid, noted), t) d =
      let d' = user_done h t d in
      let (new, users) = insert_new uid h d'.users in
      (
        ok noted,
        record d' {
          users = users;
          signals = if new then user_added uid ∷ d'.signals else d'.signals;
        },
      )

  unfoldable pub add_user : ℕ → Daemon → Result (Option Error) × Daemon
  unfolding user_added_at
  add_user h d = user_added_at h (user_add glib os c (on_user d h)) d

  -- The uid is that of the object before.
  unfoldable pub user_deleted_at :
      ℕ → ℕ → Result (Option Error) × State UserObject → Daemon → Result (Option Error) × Daemon
  unfolding emit
  user_deleted_at h uid (err e, t) d = (err e, user_done h t d)
  user_deleted_at h uid (ok noted, t) d = (ok noted, emit user_deleted uid (user_done h t d))

  unfoldable pub delete_user : ℕ → Bool → Daemon → Result (Option Error) × Daemon
  unfolding user_deleted_at
  delete_user h rem_home_dir d =
      user_deleted_at h (d.users.at h).pw.pw_uid (user_delete glib os c rem_home_dir (on_user d h))
        d

  unfoldable pub user_updated_at :
      ℕ → Result (Unit {0}) × State UserObject → Daemon → Result (Unit {0}) × Daemon
  unfolding emit
  user_updated_at h (err e, t) d = (err e, user_done h t d)
  user_updated_at h (ok _, t) d = (ok tt, emit user_updated t.self.pw.pw_uid (user_done h t d))

  unfoldable pub update_user : ℕ → Daemon → Result (Unit {0}) × Daemon
  unfolding user_updated_at
  update_user h d = user_updated_at h (user_update glib os c (on_user d h)) d

module _ (os : Os) (c : Config) where
  unfoldable pub get_group_from : ℕ → Option ℕ → Daemon → Result ℕ × Daemon
  unfolding take_ref remember
  get_group_from gid (some h) d = (ok h, record d { groups = take_ref h d.groups })
  get_group_from gid none d =
      remember_group gid (new_by_gid os gid (record { self = new_object; world = d.world })) d

  unfoldable pub get_group : ℕ → Daemon → Result ℕ × Daemon
  unfolding get_group_from
  get_group gid d = get_group_from gid (d.groups.table gid) d

  unfoldable pub get_group_by_name : Option Str → Daemon → Result ℕ × Daemon
  unfolding get_group
  get_group_by_name groupname d =
      let (gid, t) = get_gid_by_name os groupname (record { self = new_object; world = d.world }) in
      let d' = record d { world = t.world } in
      if gid == invalid_id then (err Error.group_not_found, d') else get_group gid d'

  -- No signal is emitted.
  unfoldable pub group_added_at :
      ℕ → Result ℕ × State GroupObject → Daemon → Result (Unit {0}) × Daemon
  unfolding insert_new
  group_added_at h (err e, t) d = (err e, group_done h t d)
  group_added_at h (ok gid, t) d =
      let d' = group_done h t d in (ok tt, record d' { groups = (insert_new gid h d'.groups).1 })

  unfoldable pub add_group : ℕ → Daemon → Result (Unit {0}) × Daemon
  unfolding group_added_at
  add_group h d = group_added_at h (group_add os c invalid_id (on_group d h)) d

  unfoldable pub group_deleted_at :
      ℕ → ℕ → Result (Unit {0}) × State GroupObject → Daemon → Result (Unit {0}) × Daemon
  unfolding emit
  group_deleted_at h gid (err e, t) d = (err e, group_done h t d)
  group_deleted_at h gid (ok _, t) d = (ok tt, emit group_deleted gid (group_done h t d))

  unfoldable pub delete_group : ℕ → Daemon → Result (Unit {0}) × Daemon
  unfolding group_deleted_at
  delete_group h d =
      group_deleted_at h (d.groups.at h).group.gr_gid (group_delete os c (on_group d h)) d

  unfoldable pub group_updated_at :
      ℕ → Result (Unit {0}) × State GroupObject → Daemon → Result (Unit {0}) × Daemon
  unfolding emit
  group_updated_at h (err e, t) d = (err e, group_done h t d)
  group_updated_at h (ok _, t) d =
      (ok tt, emit group_updated t.self.group.gr_gid (group_done h t d))

  unfoldable pub update_group_object : ℕ → Daemon → Result (Unit {0}) × Daemon
  unfolding group_updated_at
  update_group_object h d = group_updated_at h (group_update os c (on_group d h)) d

  unfoldable pub add_group_member : ℕ → ℕ → Bool → Daemon → Result (Unit {0}) × Daemon
  add_group_member h uid add_as_admin d =
      let (r, t) = group_add_member os c uid add_as_admin (on_group d h) in (r, group_done h t d)

  unfoldable pub delete_group_member : ℕ → ℕ → Daemon → Result (Unit {0}) × Daemon
  delete_group_member h uid d =
      let (r, t) = group_delete_member os c uid (on_group d h) in (r, group_done h t d)
