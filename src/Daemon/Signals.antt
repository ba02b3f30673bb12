-- ===== src/Daemon/Signals.antt =====
-- The signals of the daemon, and the objects that its lookups give.
use platform_upstream_gumd.Common.{
  ℕ, ◌≡◌, refl, Bool, Option, none, some, List, ◌∷◌, ◌==◌, if◌then◌else◌, arith,
}
use platform_upstream_gumd.Error.{Error, Result, ok, err}
use platform_upstream_gumd.StringUtils.{Strv}
use platform_upstream_gumd.File.{invalid_id}
use platform_upstream_gumd.World.{Config, Os, State}
use platform_upstream_gumd.Group.{GroupObject}
use platform_upstream_gumd.User.{UserObject, new_user}
use platform_upstream_gumd.User.Operations.{user_new_by_uid}
use platform_upstream_gumd.Objects.{take_ref, allocate, insert, remember, insert_new, set_object}
use platform_upstream_gumd.Objects.Live.{IsThere, Live}
use platform_upstream_gumd.Daemon.{
  Daemon, Signal, user_added, user_deleted, user_updated, group_deleted, group_updated, emit,
  remember_user, get_user_from, get_user, user_added_at, user_deleted_at, delete_user,
  user_updated_at, update_user, group_added_at, add_group, group_deleted_at, delete_group,
  group_updated_at, update_group_object,
}

-- The signals before and after a request, by its result.
abbrev pub Signalled :
    {A : Type 0} → (ℕ → Signal) → ℕ → Result A → List Signal → List Signal → Type 0
Signalled signal id (err e) before after = after ≡ before
Signalled signal id (ok _) before after =
    after ≡ (if id == invalid_id then before else signal id ∷ before)

module _ (glib : Strv) (os : Os) (c : Config) where
  user_deleted_at-Signalled :
      (h uid : ℕ) (x : Result (Option Error) × State UserObject) (d : Daemon)
      → let (r, d') = user_deleted_at glib os c h uid x d in
        Signalled user_deleted uid r d.signals d'.signals
  unfolding user_deleted_at emit
  user_deleted_at-Signalled h uid (err e, t) d = refl
  user_deleted_at-Signalled h uid (ok noted, t) d = ground arith

  user_updated_at-Signalled :
      (h : ℕ) (x : Result (Unit {0}) × State UserObject) (d : Daemon)
      → let (r, d') = user_updated_at glib os c h x d in
        Signalled user_updated (d'.users.at h).pw.pw_uid r d.signals d'.signals
  unfolding user_updated_at emit set_object
  user_updated_at-Signalled h (err e, t) d = refl
  user_updated_at-Signalled h (ok u, t) d = ground arith

  -- A new user is announced, if the table did not have its id.
  abbrev pub Announced : Result (ℕ × Option Error) → Daemon → List Signal → Type 0
  Announced (err e) d after = after ≡ d.signals
  Announced (ok (uid, noted)) d after =
      after ≡ elim (d.users.table uid) [ none ↦ user_added uid ∷ d.signals | some h ↦ d.signals ]

  user_added_at-Announced :
      (h : ℕ) (x : Result (ℕ × Option Error) × State UserObject) (d : Daemon)
      → Announced x.0 d (user_added_at glib os c h x d).1.signals
  unfolding user_added_at insert_new set_object
  user_added_at-Announced h (err e, t) d = refl
  user_added_at-Announced h (ok (uid, noted), t) d = ground arith

module _ (os : Os) (c : Config) where
  group_deleted_at-Signalled :
      (h gid : ℕ) (x : Result (Unit {0}) × State GroupObject) (d : Daemon)
      → let (r, d') = group_deleted_at os c h gid x d in
        Signalled group_deleted gid r d.signals d'.signals
  unfolding group_deleted_at emit
  group_deleted_at-Signalled h gid (err e, t) d = refl
  group_deleted_at-Signalled h gid (ok u, t) d = ground arith

  group_updated_at-Signalled :
      (h : ℕ) (x : Result (Unit {0}) × State GroupObject) (d : Daemon)
      → let (r, d') = group_updated_at os c h x d in
        Signalled group_updated (d'.groups.at h).group.gr_gid r d.signals d'.signals
  unfolding group_updated_at emit set_object
  group_updated_at-Signalled h (err e, t) d = refl
  group_updated_at-Signalled h (ok u, t) d = ground arith

  group_added_at_silent :
      (h : ℕ) (x : Result ℕ × State GroupObject) (d : Daemon)
      → (group_added_at os c h x d).1.signals ≡ d.signals
  unfolding group_added_at
  group_added_at_silent h (err e, t) d = refl
  group_added_at_silent h (ok gid, t) d = refl

-- The requests on the object at an address: where deleting or updating it succeeds, the one signal of the
-- request is emitted with the id that the object had before it is deleted, or has after it is
-- updated, unless that is invalid; where it fails, none is. Adding a group emits no signal at all.
pub requests-Signalled :
    (glib : Strv) (os : Os) (c : Config) (h : ℕ) (rem : Bool) (d : Daemon)
    → (let (r, d') = delete_user glib os c h rem d in
        Signalled user_deleted (d.users.at h).pw.pw_uid r d.signals d'.signals)
      × (let (r, d') = update_user glib os c h d in
          Signalled user_updated (d'.users.at h).pw.pw_uid r d.signals d'.signals)
      × (let (r, d') = delete_group os c h d in
          Signalled group_deleted (d.groups.at h).group.gr_gid r d.signals d'.signals)
      × (let (r, d') = update_group_object os c h d in
          Signalled group_updated (d'.groups.at h).group.gr_gid r d.signals d'.signals)
      × ((add_group os c h d).1.signals ≡ d.signals)
unfolding delete_user update_user delete_group update_group_object add_group
requests-Signalled glib os c h rem d = (
  user_deleted_at-Signalled glib os c h _ _ d,
  user_updated_at-Signalled glib os c h _ d,
  group_deleted_at-Signalled os c h _ _ d,
  group_updated_at-Signalled os c h _ d,
  group_added_at_silent os c h _ d,
)

-- What a lookup has given: an object that is there, under its id, that the next lookup gives again.
abbrev pub Looked : Strv → Os → Config → ℕ → Result ℕ × Daemon → Type 0
Looked glib os c uid (err e, d) = Unit
Looked glib os c uid (ok h, d) =
    IsThere d.users h × (d.users.table uid ≡ some h) × ((get_user glib os c uid d).0 ≡ ok h)

again :
    (glib : Strv) (os : Os) (c : Config) (uid h : ℕ) (d : Daemon)
    → d.users.table uid ≡ some h
    → (get_user glib os c uid d).0 ≡ ok h
unfolding get_user get_user_from
again glib os c uid h d e = rw e refl

remembered-Looked :
    (glib : Strv) (os : Os) (c : Config) (uid : ℕ) (x : Option UserObject × State UserObject)
    (d : Daemon)
    → Looked glib os c uid (remember_user uid x d)
unfolding remember allocate insert
remembered-Looked glib os c uid (none, t) d = tt
remembered-Looked glib os c uid (some o, t) d =
    let (r, d') = remember_user uid (some o, t) d in
    let e : d'.users.table uid ≡ some d.users.next = ground arith in
    (ground arith, e, again glib os c uid d.users.next d' e)

from-Looked :
    (glib : Strv) (os : Os) (c : Config) (uid : ℕ) (entry : Option ℕ) (d : Daemon)
    → d.users.table uid ≡ entry
    → Live d.users
    → Looked glib os c uid (get_user_from glib os c uid entry d)
unfolding get_user_from take_ref
from-Looked glib os c uid (some h) d e l =
    let d' = record d { users = take_ref h d.users } in
    (ground (arith, l uid h e), e, again glib os c uid h d' e)
from-Looked glib os c uid none d e l =
    remembered-Looked glib os c uid
      (user_new_by_uid glib os c uid (record { self = new_user; world = d.world })) d

-- On a table whose objects are all there, a lookup that succeeds gives an object that is there and
-- stands in the table under the id, and the next lookup gives the same object.
get_user-Looked :
    (glib : Strv) (os : Os) (c : Config) (uid : ℕ) (d : Daemon)
    → Live d.users
    → Looked glib os c uid (get_user glib os c uid d)
unfolding get_user
get_user-Looked glib os c uid d l = from-Looked glib os c uid (d.users.table uid) d refl l
