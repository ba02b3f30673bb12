-- ===== src/Group/Operations/Add.antt =====
-- What `gumd_daemon_group_add` does to the group file.
use platform_upstream_gumd.Common.{
  ℕ, ◌≡◌, ◌⊎◌, inl, inr, refl, ap, Bool, true, false, Option, none, some, List, Str, ltb, arith,
}
use platform_upstream_gumd.Error.{Error, ok, err}
use platform_upstream_gumd.Database.{Group, stored_group}
use platform_upstream_gumd.Validate.{validate_name}
use platform_upstream_gumd.File.{DbFiles, add, getgrnam, getgrgid}
use platform_upstream_gumd.File.Update.{update-Outcome}
use platform_upstream_gumd.File.Placement.{Settled, insert_before, loop-insert_before}
use platform_upstream_gumd.World.{
  Config, Os, State, Action, combinators, set_self, gets, pure, ◌>>=◌, ◌>>◌, when, run_scripts,
  groupadd_dir, exists, lock_db, unlock_db, or_unlock,
}
use platform_upstream_gumd.World.Post.{Post, Post-bind, Post-or_unlock, Post-mono}
use platform_upstream_gumd.Group.{GroupObject, set_gid_property, set_secret_property}
use platform_upstream_gumd.Group.Ids.{set_gid, find_free_gid, get_default_gid_range}
use platform_upstream_gumd.Ids.Free.{IsFree, find_in_range-IsFree}
use platform_upstream_gumd.Group.Entries.{group_rules, update_daemon_group_entry}
use platform_upstream_gumd.Group.Fields.{
  check_group_type, set_secret, set_gshadow_data, with_secret, without_secret, store_encrypted,
  encrypt_or_default,
}
use platform_upstream_gumd.Group.Operations.{
  update_group, update_gshadow, run_group_scripts, group_add,
}

find_free_gid-IsFree :
    (c : Config) (f : DbFiles Group) (o : GroupObject) (preferred : ℕ)
    → IsFree (λ gid. getgrgid gid f) (get_default_gid_range c o) (find_free_gid c f o preferred)
unfolding find_free_gid
find_free_gid-IsFree c f o preferred =
    ground (arith, find_in_range-IsFree (λ gid. getgrgid gid f) (get_default_gid_range c o))

with_secret_keeps :
    (enc : Option Str) (o : GroupObject)
    → ((with_secret enc o).group.gr_name ≡ o.group.gr_name)
      × ((with_secret enc o).group.gr_gid ≡ o.group.gr_gid)
unfolding with_secret set_secret_property
with_secret_keeps enc o = ground arith

without_secret_keeps :
    (o : GroupObject)
    → ((without_secret o).group.gr_name ≡ o.group.gr_name)
      × ((without_secret o).group.gr_gid ≡ o.group.gr_gid)
unfolding without_secret
without_secret_keeps o = (refl, refl)

module _ (os : Os) (c : Config) (s0 : State GroupObject) where
  abbrev Same : State GroupObject → Type 0
  Same s = (s.world.group ≡ s0.world.group) × (s.self.group.gr_name ≡ s0.self.group.gr_name)

  -- The object has a name and an id that no entry of the file has.
  abbrev Ready : State GroupObject → Type 0
  Ready s =
      Same s
      × (validate_name s0.self.group.gr_name ≡ ok tt)
      × (getgrnam s0.self.group.gr_name s0.world.group ≡ none)
      × (getgrgid s.self.group.gr_gid s0.world.group ≡ none)

  set_gid-Ready :
      (preferred : ℕ) (s : State GroupObject)
      → Same s
      → Post (λ _ t. Ready t) Same (set_gid c preferred s)
  unfolding set_gid set_gid_property combinators
  set_gid-Ready preferred s h =
      ground (arith, find_free_gid-IsFree c s.world.group s.self preferred)

  store_encrypted-Ready :
      (enc : Option Str) (s : State GroupObject)
      → Ready s
      → Post (λ _ t. Ready t) Same (store_encrypted enc s)
  unfolding store_encrypted
  store_encrypted-Ready none s h = h.0
  store_encrypted-Ready (some enc) s h = ground (arith, with_secret_keeps (some enc) s.self)

  encrypt_or_default-Ready :
      (passwd : Option Str) (s : State GroupObject)
      → Ready s
      → Post (λ _ t. Ready t) Same (encrypt_or_default os c passwd s)
  unfolding encrypt_or_default
  encrypt_or_default-Ready none s h = ground (arith, without_secret_keeps s.self)
  encrypt_or_default-Ready (some secret) s h = store_encrypted-Ready _ s h

  set_secret-Ready :
      (s : State GroupObject) → Ready s → Post (λ _ t. Ready t) Same (set_secret os c s)
  unfolding set_secret
  set_secret-Ready s h = encrypt_or_default-Ready s.self.group.gr_passwd s h

  set_gshadow_data-Ready :
      (s : State GroupObject) → Ready s → Post (λ _ t. Ready t) Same (set_gshadow_data os c s)
  unfolding set_gshadow_data set_self
  set_gshadow_data-Ready s h =
      Post-bind (λ _ t. Ready t) _ _ _ _ s h
        λ _ t r. Post-bind (λ _ t. Ready t) _ _ _ _ t (set_secret-Ready t r) λ _ u q. q

  module _ (es : List Group) (file : s0.world.group.source ≡ some es)
      (settled : Settled stored_group es) where
    -- The group file has one entry more, the object's, in front of the first entry with a greater id.
    abbrev pub Added : State GroupObject → Type 0
    Added t =
        (t.self.group.gr_name ≡ s0.self.group.gr_name)
        × (validate_name s0.self.group.gr_name ≡ ok tt)
        × (getgrnam s0.self.group.gr_name s0.world.group ≡ none)
        × (getgrgid t.self.group.gr_gid s0.world.group ≡ none)
        × (t.world.group.source
            ≡ some (
                insert_before (λ e. ltb t.self.group.gr_gid e.gr_gid) (stored_group t.self.group)
                  es))

    abbrev pub Unchanged : State GroupObject → Type 0
    Unchanged t = t.world.group.source ≡ s0.world.group.source

    -- What the rewritten file is, if there is one.
    abbrev inserted : GroupObject → List Group
    inserted o = insert_before (λ e. ltb o.group.gr_gid e.gr_gid) (stored_group o.group) es

    callback_add :
        (o : GroupObject) (put_ok : ℕ → Group → Bool)
        → (update_daemon_group_entry o add none put_ok es ≡ ok (inserted o))
          ⊎ (e : Error) × (update_daemon_group_entry o add none put_ok es ≡ err e)
    unfolding update_daemon_group_entry group_rules
    callback_add o put_ok = elim (loop-insert_before (group_rules o none) put_ok 0 es settled) [
      | inl e ↦ inl e.0
      | inr (inl e) ↦ inr (_, e.0)
      | inr (inr e) ↦ inr (_, e.0)
    ]

    update_group-Added :
        (s : State GroupObject)
        → Ready s
        → Post (λ _ t. Added t) Unchanged (update_group os c add none s)
    unfolding update_group
    update_group-Added s h =
        let io = os.group_io s.world.calls in
        let cb = update_daemon_group_entry s.self add none in
        ground (arith, update-Outcome io cb s.world.group, callback_add s.self io.put_ok)

    abbrev pub Settles : State GroupObject → Type 0
    Settles t = Unchanged t ⊎ Added t

    abbrev pub Given : ℕ → State GroupObject → Type 0
    Given gid t = (t.self.group.gr_gid ≡ gid) × Added t

    unlock-Settles : (t : State GroupObject) → Settles t → Settles (unlock_db os t).1
    unfolding unlock_db
    unlock-Settles t h = h

    Same-Settles : (t : State GroupObject) → Same t → Settles t
    Same-Settles t h = inl (ap (λ f. f.source) h.0)

    -- An action under the lock, from what holds before to what holds after.
    guarded :
        (R : State GroupObject → Type 0) (m : Action GroupObject (Unit {0})) (s : State GroupObject)
        → Post (λ _ t. R t) Settles (m s)
        → Post (λ _ t. R t) Settles (or_unlock os m s)
    guarded R m s h = Post-or_unlock os (λ _ t. R t) Settles m s h unlock-Settles

    update_gshadow-Added :
        (s : State GroupObject)
        → Added s
        → Post (λ _ t. Added t) Settles (update_gshadow os c add none s)
    unfolding update_gshadow
    update_gshadow-Added s h = ground arith

    when_shadow :
        (there : Bool) (s : State GroupObject)
        → Added s
        → Post (λ _ t. Added t) Settles (when there (or_unlock os (update_gshadow os c add none)) s)
    unfolding when
    when_shadow true s h = guarded Added (update_gshadow os c add none) s (update_gshadow-Added s h)
    when_shadow false s h = h

    finish :
        (s : State GroupObject)
        → Added s
        → Post Given Settles (
            (gets (λ s. s.self.group.gr_gid) >>= λ gid.
            run_group_scripts os c groupadd_dir >> (unlock_db os >> pure gid))
              s)
    unfolding run_group_scripts run_scripts unlock_db combinators
    finish s h = (refl, h)

    finish_update :
        (s : State GroupObject)
        → Added s
        → Post Given Settles (
            (gets (λ s. exists s.world.gshadow) >>= λ there.
            when there (or_unlock os (update_gshadow os c add none))
            >> (gets (λ s. s.self.group.gr_gid) >>= λ gid.
                run_group_scripts os c groupadd_dir >> (unlock_db os >> pure gid)))
              s)
    unfolding gets
    finish_update s h =
        Post-bind (λ _ t. Added t) Given Settles _ _ s h
          λ there t h'.
            Post-bind (λ _ u. Added u) Given Settles _ _ t (when_shadow there t h')
              λ _ u q. finish u q

    check : Post (λ _ t. Same t) Settles (check_group_type s0)
    unfolding check_group_type combinators
    check = ground arith

    locked : (t : State GroupObject) → Same t → Post (λ _ u. Same u) Settles (lock_db os t)
    unfolding lock_db
    locked t h = ground (arith, Same-Settles t h)

    -- `gumd_daemon_group_add` where the group file can be read, with its entries as `fgetgrent`
    -- gives them. Where it returns TRUE, the name is valid and no entry had it, nor the id that is
    -- given; and the file has the object's entry more, with that name and id, in front of the first
    -- entry with a greater id. Where it returns FALSE, the file is as it was, or has the new entry
    -- all the same.
    pub group_add-Added : (preferred : ℕ) → Post Given Settles (group_add os c preferred s0)
    unfolding group_add
    group_add-Added preferred =
        Post-bind (λ _ t. Same t) Given Settles _ _ s0 check
          λ _ t0 h0.
            Post-bind (λ _ t. Same t) Given Settles _ _ t0 (locked t0 h0)
              λ _ t1 h1.
                Post-bind (λ _ t. Ready t) Given Settles _ _ t1
                  (guarded Ready (set_gid c preferred) t1 (
                    Post-mono (λ _ t. Ready t) Same Settles _ Same-Settles
                      (set_gid-Ready preferred t1 h1)))
                  λ _ t2 h2.
                    Post-bind (λ _ t. Ready t) Given Settles _ _ t2
                      (guarded Ready (set_gshadow_data os c) t2 (
                        Post-mono (λ _ t. Ready t) Same Settles _ Same-Settles
                          (set_gshadow_data-Ready t2 h2)))
                      λ _ t3 h3.
                        Post-bind (λ _ t. Added t) Given Settles _ _ t3
                          (guarded Added (update_group os c add none) t3 (
                            Post-mono (λ _ t. Added t) Unchanged Settles _ (λ t u. inl u)
                              (update_group-Added t3 h3)))
                          λ _ t4 h4. finish_update t4 h4
