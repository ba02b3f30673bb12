-- ===== src/Daemon/Requests.antt =====
-- The requests that clients make of the daemon, and the objects of its tables.
use platform_upstream_gumd.Common.{
  ℕ, ◌≡◌, sym, ◌∙◌, Bool, true, false, Option, none, some, Str, ◌==◌, if◌then◌else◌, inl, inr,
  Bool-cases, arith,
}
use platform_upstream_gumd.Error.{Error, Result, ok, err}
use platform_upstream_gumd.StringUtils.{Strv}
use platform_upstream_gumd.File.{invalid_id}
use platform_upstream_gumd.World.{Config, Os, State}
use platform_upstream_gumd.Group.{GroupObject}
use platform_upstream_gumd.User.{UserObject}
use platform_upstream_gumd.User.Operations.{user_update, user_delete}
use platform_upstream_gumd.Group.Operations.{group_update, group_delete}
use platform_upstream_gumd.Objects.{Objects, drop_ref, set_object}
use platform_upstream_gumd.Objects.Live.{
  IsThere, Live, take_ref-Live, set_object-Live, set_object-IsThere, drop_ref-Live, remember-Live,
  insert_new-Live,
}
use platform_upstream_gumd.Daemon.{
  Daemon, Signal, user_deleted, user_updated, group_deleted, group_updated, emit, on_user, on_group,
  user_done, group_done, get_user_from, get_user, get_user_by_name, user_added_at, add_user,
  user_deleted_at, delete_user, user_updated_at, update_user, get_group_from, get_group,
  get_group_by_name, group_added_at, add_group, group_deleted_at, delete_group, group_updated_at,
  update_group_object, add_group_member, delete_group_member,
}

-- An object is named by its address.
pub data Request : Type 0 where
  gets_user gets_group : ℕ → Request
  gets_user_by_name gets_group_by_name : Option Str → Request
  adds_user updates_user drops_user adds_group updates_group deletes_group drops_group : ℕ → Request
  deletes_user : ℕ → Bool → Request
  adds_member : ℕ → ℕ → Bool → Request
  deletes_member : ℕ → ℕ → Request

pub handle : Strv → Os → Config → Request → Daemon → Daemon
handle glib os c (gets_user uid) d = (get_user glib os c uid d).1
handle glib os c (gets_group gid) d = (get_group os c gid d).1
handle glib os c (gets_user_by_name name) d = (get_user_by_name glib os c name d).1
handle glib os c (gets_group_by_name name) d = (get_group_by_name os c name d).1
handle glib os c (adds_user h) d = (add_user glib os c h d).1
handle glib os c (updates_user h) d = (update_user glib os c h d).1
handle glib os c (drops_user h) d = record d { users = drop_ref h d.users }
handle glib os c (adds_group h) d = (add_group os c h d).1
handle glib os c (updates_group h) d = (update_group_object os c h d).1
handle glib os c (deletes_group h) d = (delete_group os c h d).1
handle glib os c (drops_group h) d = record d { groups = drop_ref h d.groups }
handle glib os c (deletes_user h rem) d = (delete_user glib os c h rem d).1
handle glib os c (adds_member h uid admin) d = (add_group_member os c h uid admin d).1
handle glib os c (deletes_member h uid) d = (delete_group_member os c h uid d).1

-- The client has the object that it wants to be added.
abbrev pub Held : Request → Daemon → Type 0
Held (adds_user h) d = IsThere d.users h
Held (adds_group h) d = IsThere d.groups h
Held _ d = Unit

-- No object of the tables has been disposed of.
abbrev pub Safe : Daemon → Type 0
Safe d = Live d.users × Live d.groups

if_else-Safe :
    {A : Type 0} (test : Bool) (x y : A × Daemon)
    → Safe x.1
    → Safe y.1
    → Safe (if test then x else y).1
if_else-Safe true x y p q = p
if_else-Safe false x y p q = q

emit-Safe : (signal : ℕ → Signal) (id : ℕ) (d : Daemon) → Safe d → Safe (emit signal id d)
unfolding emit
emit-Safe signal id d s = elim (Bool-cases (id == invalid_id)) [ inl e ↦ rw e s | inr e ↦ rw e s ]

module _ (glib : Strv) (os : Os) (c : Config) where
  get_user_from-Safe :
      (uid : ℕ) (entry : Option ℕ) (d : Daemon)
      → Safe d
      → Safe (get_user_from glib os c uid entry d).1
  unfolding get_user_from
  get_user_from-Safe uid (some h) d s = (take_ref-Live h d.users s.0, s.1)
  get_user_from-Safe uid none d s = (remember-Live uid _ Error.user_not_found d.users s.0, s.1)

  get_user_by_name-Safe :
      (name : Option Str) (d : Daemon) → Safe d → Safe (get_user_by_name glib os c name d).1
  unfolding get_user_by_name get_user
  get_user_by_name-Safe name d s = if_else-Safe _ _ _ s (get_user_from-Safe _ _ _ s)

  user_added_at-Safe :
      (h : ℕ) (x : Result (ℕ × Option Error) × State UserObject) (d : Daemon)
      → IsThere d.users h
      → Safe d
      → Safe (user_added_at glib os c h x d).1
  unfolding user_added_at
  user_added_at-Safe h (err e, t) d i s = (set_object-Live h t.self d.users s.0, s.1)
  user_added_at-Safe h (ok (uid, noted), t) d i s = (
    insert_new-Live uid h (set_object h t.self d.users) (set_object-IsThere h h t.self d.users i)
        (set_object-Live h t.self d.users s.0),
    s.1,
  )

  user_deleted_at-Safe :
      (h uid : ℕ) (x : Result (Option Error) × State UserObject) (d : Daemon)
      → Safe d
      → Safe (user_deleted_at glib os c h uid x d).1
  unfolding user_deleted_at
  user_deleted_at-Safe h uid (err e, t) d s = (set_object-Live h t.self d.users s.0, s.1)
  user_deleted_at-Safe h uid (ok noted, t) d s =
      emit-Safe user_deleted uid (user_done h t d) (set_object-Live h t.self d.users s.0, s.1)

  user_updated_at-Safe :
      (h : ℕ) (x : Result (Unit {0}) × State UserObject) (d : Daemon)
      → Safe d
      → Safe (user_updated_at glib os c h x d).1
  unfolding user_updated_at
  user_updated_at-Safe h (err e, t) d s = (set_object-Live h t.self d.users s.0, s.1)
  user_updated_at-Safe h (ok u, t) d s =
      emit-Safe user_updated t.self.pw.pw_uid (user_done h t d)
        (set_object-Live h t.self d.users s.0, s.1)

module _ (os : Os) (c : Config) where
  get_group_from-Safe :
      (gid : ℕ) (entry : Option ℕ) (d : Daemon) → Safe d → Safe (get_group_from os c gid entry d).1
  unfolding get_group_from
  get_group_from-Safe gid (some h) d s = (s.0, take_ref-Live h d.groups s.1)
  get_group_from-Safe gid none d s = (s.0, remember-Live gid _ Error.group_not_found d.groups s.1)

  get_group_by_name-Safe :
      (name : Option Str) (d : Daemon) → Safe d → Safe (get_group_by_name os c name d).1
  unfolding get_group_by_name get_group
  get_group_by_name-Safe name d s = if_else-Safe _ _ _ s (get_group_from-Safe _ _ _ s)

  group_added_at-Safe :
      (h : ℕ) (x : Result ℕ × State GroupObject) (d : Daemon)
      → IsThere d.groups h
      → Safe d
      → Safe (group_added_at os c h x d).1
  unfolding group_added_at
  group_added_at-Safe h (err e, t) d i s = (s.0, set_object-Live h t.self d.groups s.1)
  group_added_at-Safe h (ok gid, t) d i s = (
    s.0,
    insert_new-Live gid h (set_object h t.self d.groups) (set_object-IsThere h h t.self d.groups i)
        (set_object-Live h t.self d.groups s.1),
  )

  group_deleted_at-Safe :
      (h gid : ℕ) (x : Result (Unit {0}) × State GroupObject) (d : Daemon)
      → Safe d
      → Safe (group_deleted_at os c h gid x d).1
  unfolding group_deleted_at
  group_deleted_at-Safe h gid (err e, t) d s = (s.0, set_object-Live h t.self d.groups s.1)
  group_deleted_at-Safe h gid (ok u, t) d s =
      emit-Safe group_deleted gid (group_done h t d) (s.0, set_object-Live h t.self d.groups s.1)

  group_updated_at-Safe :
      (h : ℕ) (x : Result (Unit {0}) × State GroupObject) (d : Daemon)
      → Safe d
      → Safe (group_updated_at os c h x d).1
  unfolding group_updated_at
  group_updated_at-Safe h (err e, t) d s = (s.0, set_object-Live h t.self d.groups s.1)
  group_updated_at-Safe h (ok u, t) d s =
      emit-Safe group_updated t.self.group.gr_gid (group_done h t d)
        (s.0, set_object-Live h t.self d.groups s.1)

-- A request, in which an object to be added is one that is there, leaves no object in the tables that
-- has been disposed of, if none was there.
pub handle-Safe :
    (glib : Strv) (os : Os) (c : Config) (r : Request) (d : Daemon)
    → Held r d
    → Safe d
    → Safe (handle glib os c r d)
unfolding handle get_user get_group add_user update_user add_group update_group_object delete_group
    delete_user add_group_member delete_group_member
handle-Safe glib os c (gets_user uid) d i s = get_user_from-Safe glib os c uid _ d s
handle-Safe glib os c (gets_group gid) d i s = get_group_from-Safe os c gid _ d s
handle-Safe glib os c (gets_user_by_name name) d i s = get_user_by_name-Safe glib os c name d s
handle-Safe glib os c (gets_group_by_name name) d i s = get_group_by_name-Safe os c name d s
handle-Safe glib os c (adds_user h) d i s = user_added_at-Safe glib os c h _ d i s
handle-Safe glib os c (updates_user h) d i s =
    user_updated_at-Safe glib os c h (user_update glib os c (on_user d h)) d s
handle-Safe glib os c (drops_user h) d i s = (drop_ref-Live h d.users s.0, s.1)
handle-Safe glib os c (adds_group h) d i s = group_added_at-Safe os c h _ d i s
handle-Safe glib os c (updates_group h) d i s =
    group_updated_at-Safe os c h (group_update os c (on_group d h)) d s
handle-Safe glib os c (deletes_group h) d i s =
    group_deleted_at-Safe os c h (d.groups.at h).group.gr_gid (group_delete os c (on_group d h)) d s
handle-Safe glib os c (drops_group h) d i s = (s.0, drop_ref-Live h d.groups s.1)
handle-Safe glib os c (deletes_user h rem) d i s =
    user_deleted_at-Safe glib os c h (d.users.at h).pw.pw_uid
      (user_delete glib os c rem (on_user d h)) d s
handle-Safe glib os c (adds_member h uid admin) d i s = (s.0, set_object-Live h _ d.groups s.1)
handle-Safe glib os c (deletes_member h uid) d i s = (s.0, set_object-Live h _ d.groups s.1)

-- A daemon that has handled requests since it was started, with nothing in its tables.
pub data Served (glib : Strv) (os : Os) (c : Config) : Daemon → Type 0 where
  started :
      (d : Daemon)
      → ((id : ℕ) → d.users.table id ≡ none)
      → ((id : ℕ) → d.groups.table id ≡ none)
      → Served glib os c d
  served :
      {d : Daemon} (r : Request)
      → Held r d
      → Served glib os c d
      → Served glib os c (handle glib os c r d)

none_is_not : (h : ℕ) → none ≡ some h → ⊥
none_is_not h e = ground arith

empty-Live :
    {O : Type 0} (objects : Objects O) → ((id : ℕ) → objects.table id ≡ none) → Live objects
empty-Live objects n id h e = absurd (none_is_not h (sym (n id) ∙ e))

-- However many requests have been handled, each object of the daemon's tables is one that has not been
-- disposed of: a lookup never gives a dangling pointer.
pub Served-Safe : (glib : Strv) (os : Os) (c : Config) {d : Daemon} → Served glib os c d → Safe d
Served-Safe glib os c (started d u g) = (empty-Live d.users u, empty-Live d.groups g)
Served-Safe glib os c (served {d = d} r i before) =
    handle-Safe glib os c r d i (Served-Safe glib os c before)
