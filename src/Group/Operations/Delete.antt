-- ===== src/Group/Operations/Delete.antt =====
-- What `gumd_daemon_group_delete` does to the group file.
use platform_upstream_gumd.Common.{
  ℕ, ◌≡◌, ◌≢◌, refl, sym, ap, ◌∙◌, ◌⊎◌, inl, inr, Bool, true, false, not, ◌&&◌, Option, none, some,
  List, strcmp0_eq, ◌==◌, arith,
}
use platform_upstream_gumd.Error.{Error, Result, ok, err}
use platform_upstream_gumd.Database.{Group, Passwd, stored_group}
use platform_upstream_gumd.File.{delete, invalid_id, find_user_by_gid}
use platform_upstream_gumd.File.Update.{update-Outcome}
use platform_upstream_gumd.File.Placement.{Settled, remove_first, any, loop-remove_first}
use platform_upstream_gumd.World.{
  Config, Os, State, Action, gets, require, ◌>>=◌, ◌>>◌, when, run_scripts, groupdel_dir, exists,
  lock_db, unlock_db, or_unlock,
}
use platform_upstream_gumd.World.Post.{Post, Post-bind, Post-or_unlock, Post-mono}
use platform_upstream_gumd.Group.{GroupObject}
use platform_upstream_gumd.Group.Entries.{group_rules, update_daemon_group_entry}
use platform_upstream_gumd.Group.Fields.{copy_group_data}
use platform_upstream_gumd.Group.Operations.Asked.{Asked, copy_group_data-Asked}
use platform_upstream_gumd.Group.Operations.{
  update_group, update_gshadow, run_group_scripts, delete_entries, delete_unless_primary,
  group_delete,
}

module _ (os : Os) (c : Config) (s0 : State GroupObject) (es : List Group)
    (file : s0.world.group.source ≡ some es) (settled : Settled stored_group es) where
  -- The files are as they were.
  abbrev Still : State GroupObject → Type 0
  Still t = (t.world.group ≡ s0.world.group) × (t.world.passwd ≡ s0.world.passwd)

  -- So is the object.
  abbrev Known : State GroupObject → Type 0
  Known t = Still t × (t.self ≡ s0.self)

  -- The object has been filled from its entry.
  abbrev Same : State GroupObject → Type 0
  Same t = Still t × Asked s0.self t.self

  abbrev pub Unchanged : State GroupObject → Type 0
  Unchanged t = t.world.group.source ≡ s0.world.group.source

  -- The entry of the group that the object stands for.
  abbrev pub meant : State GroupObject → Group → Bool
  meant t e = t.self.group.gr_gid == e.gr_gid && strcmp0_eq t.self.group.gr_name e.gr_name

  -- The group file has lost the first entry of the group with the id, and with the name, if one was
  -- set, that the object had at the start; and no user has it as the primary group, nor the process as
  -- its own.
  abbrev pub Removed : State GroupObject → Type 0
  Removed t =
      Asked s0.self t.self
      × (find_user_by_gid t.self.group.gr_gid s0.world.passwd ≡ none)
      × (t.self.group.gr_gid ≢ os.getegid)
      × (t.world.group.source ≡ some (remove_first (meant t) es))
      × (any (meant t) es ≡ true)

  -- A user has the group as the primary one.
  abbrev pub Primary : State GroupObject → Type 0
  Primary t = Asked s0.self t.self × (find_user_by_gid t.self.group.gr_gid s0.world.passwd ≢ none)

  abbrev pub Deleted : State GroupObject → Type 0
  Deleted t = Unchanged t × Primary t ⊎ Removed t

  abbrev pub Settles : State GroupObject → Type 0
  Settles t = Unchanged t ⊎ Removed t

  unlock-Settles : (t : State GroupObject) → Settles t → Settles (unlock_db os t).1
  unfolding unlock_db
  unlock-Settles t h = h

  Still-Settles : (t : State GroupObject) → Still t → Settles t
  Still-Settles t h = inl (ap (λ f. f.source) h.0)

  guarded :
      {A : Type 0} (R : A → State GroupObject → Type 0) (m : Action GroupObject A)
      (s : State GroupObject)
      → Post R Settles (m s)
      → Post R Settles (or_unlock os m s)
  guarded R m s h = Post-or_unlock os R Settles m s h unlock-Settles

  callback_delete :
      (o : GroupObject) (put_ok : ℕ → Group → Bool)
      → (update_daemon_group_entry o delete none put_ok es
            ≡ ok (remove_first (group_rules o none).deletes es))
          × (any (group_rules o none).deletes es ≡ true)
        ⊎ (e : Error) × (update_daemon_group_entry o delete none put_ok es ≡ err e)
  unfolding update_daemon_group_entry group_rules
  callback_delete o put_ok = elim (loop-remove_first (group_rules o none) put_ok 0 es settled) [
    | inl e ↦ inl e
    | inr e ↦ inr (_, e)
  ]

  -- The object has its final id and name, and may be deleted.
  abbrev Ready : State GroupObject → Type 0
  Ready t =
      Same t
      × (find_user_by_gid t.self.group.gr_gid s0.world.passwd ≡ none)
      × (t.self.group.gr_gid ≢ os.getegid)

  deletes-meant : (t : State GroupObject) → (group_rules t.self none).deletes ≡ meant t
  unfolding group_rules
  deletes-meant t = refl

  update_group-Removed :
      (s : State GroupObject)
      → Ready s
      → Post (λ _ t. Removed t) Unchanged (update_group os c delete none s)
  unfolding update_group group_rules
  update_group-Removed s h =
      let io = os.group_io s.world.calls in
      let cb = update_daemon_group_entry s.self delete none in
      ground (arith, update-Outcome io cb s.world.group, callback_delete s.self io.put_ok)

  update_gshadow-Removed :
      (s : State GroupObject)
      → Removed s
      → Post (λ _ t. Removed t) Settles (update_gshadow os c delete none s)
  unfolding update_gshadow
  update_gshadow-Removed s h = ground arith

  when_shadow :
      (there : Bool) (s : State GroupObject)
      → Removed s
      → Post
          (λ _ t. Removed t)
          Settles
          (when there (or_unlock os (update_gshadow os c delete none)) s)
  unfolding when
  when_shadow true s h =
      guarded (λ _ t. Removed t) (update_gshadow os c delete none) s (update_gshadow-Removed s h)
  when_shadow false s h = h

  finish : (s : State GroupObject) → Removed s → Post (λ _ t. Deleted t) Settles (unlock_db os s)
  unfolding unlock_db
  finish s h = inr h

  scripts_run :
      (s : State GroupObject)
      → Ready s
      → Post (λ _ t. Ready t) Settles (run_group_scripts os c groupdel_dir s)
  unfolding run_group_scripts run_scripts
  scripts_run s h = h

  at_shadow :
      (s : State GroupObject)
      → Removed s
      → Post
          (λ _ t. Deleted t)
          Settles
          ((gets (λ s. exists s.world.gshadow) >>= λ there.
              when there (or_unlock os (update_gshadow os c delete none)) >> unlock_db os)
            s)
  unfolding gets
  at_shadow s h =
      Post-bind (λ _ t. Removed t) (λ _ t. Deleted t) Settles _ _ s h
        λ there t h'.
          Post-bind (λ _ t. Removed t) (λ _ t. Deleted t) Settles _ _ t (when_shadow there t h')
            λ _ u q. finish u q

  delete_entries-Deleted :
      (s : State GroupObject) → Ready s → Post (λ _ t. Deleted t) Settles (delete_entries os c s)
  unfolding delete_entries
  delete_entries-Deleted s h =
      Post-bind (λ _ t. Ready t) (λ _ t. Deleted t) Settles _ _ s (scripts_run s h)
        λ _ t r.
          Post-bind (λ _ t. Removed t) (λ _ t. Deleted t) Settles _ _ t
            (guarded (λ _ t. Removed t) (update_group os c delete none) t
              (Post-mono (λ _ t. Removed t) Unchanged Settles _ (λ t u. inl u)
                (update_group-Removed t r)))
            λ _ u q. at_shadow u q

  delete_unless_primary-Deleted :
      (primary : Option Passwd) (s : State GroupObject)
      → Same s
      → s.self.group.gr_gid ≢ os.getegid
      → find_user_by_gid s.self.group.gr_gid s0.world.passwd ≡ primary
      → Post (λ _ t. Deleted t) Settles (delete_unless_primary os c primary s)
  unfolding delete_unless_primary unlock_db
  delete_unless_primary-Deleted none s h n e = delete_entries-Deleted s (h, e, n)
  delete_unless_primary-Deleted (some user) s h n e =
      inl (ap (λ f. f.source) h.0.0, (h.1, ground arith))

  locked : Post (λ _ u. Known u) Settles (lock_db os s0)
  unfolding lock_db
  locked = ground arith

  required :
      (test : Bool) (e : Error) (t : State GroupObject)
      → Still t
      → Post
          (λ _ u. (test ≡ true) × (u.self ≡ t.self) × (u.world ≡ t.world))
          Settles
          (or_unlock os (require test e) t)
  unfolding or_unlock require unlock_db
  required true e t h = (refl, refl, refl)
  required false e t h = Still-Settles t h

  filled :
      (s : State GroupObject) (x : Result (Unit {0}) × State GroupObject)
      → Known s
      → Post (λ _ t. (t.world ≡ s.world) × Asked s.self t.self) (λ t. t.world ≡ s.world) x
      → Post (λ _ t. Same t) Settles (or_unlock os (λ _. x) s)
  unfolding or_unlock unlock_db
  filled s (ok a, t) h k = (rw k.0 h.0, rw h.1 at k.1)
  filled s (err e, t) h k = inl (ap (λ w. w.group.source) k ∙ ap (λ f. f.source) h.0.0)

  copied :
      (t : State GroupObject)
      → Known t
      → s0.self.group.gr_gid ≢ invalid_id
      → Post (λ _ u. Same u) Settles (or_unlock os (copy_group_data none none) t)
  unfolding or_unlock
  copied t h n = filled t (copy_group_data none none t) h (copy_group_data-Asked t (rw h.1 n))

  -- Once the object has been filled from its entry.
  when_copied :
      (t : State GroupObject)
      → Same t
      → Post
          (λ _ u. Deleted u)
          Settles
          ((gets (λ s. s.self.group.gr_gid) >>= λ gid.
              or_unlock os (require (not (gid == os.getegid)) Error.group_self_destruction)
              >> (gets (λ s. find_user_by_gid gid s.world.passwd) >>= λ primary.
                  delete_unless_primary os c primary))
            t)
  unfolding gets
  when_copied t h =
      Post-bind (λ gid u. (u.self.group.gr_gid ≡ gid) × Same u) (λ _ u. Deleted u) Settles _ _ t
        (refl, h)
        λ gid t1 h1.
          Post-bind
            (λ _ u. (not (gid == os.getegid) ≡ true) × (u.self ≡ t1.self) × (u.world ≡ t1.world))
            (λ _ u. Deleted u) Settles _ _ t1 (required _ _ t1 h1.1.0)
            λ _ t2 h2.
              let same : t2.self.group.gr_gid ≡ gid = ap (λ o. o.group.gr_gid) h2.1 ∙ h1.0 in
              let kept : Same t2 = rw (h2.1, h2.2) h1.1 in
              Post-bind
                (λ primary u.
                  (find_user_by_gid u.self.group.gr_gid s0.world.passwd ≡ primary)
                  × Same u
                  × (u.self.group.gr_gid ≢ os.getegid))
                (λ _ u. Deleted u) Settles _ _ t2
                (
                  ap (λ g. find_user_by_gid g s0.world.passwd) same
                      ∙ ap (λ p. find_user_by_gid gid p) (sym kept.0.1),
                  kept,
                  ground arith,
                )
                λ primary t3 h3. delete_unless_primary-Deleted primary t3 h3.1 h3.2 h3.0

  has_id :
      (gid : ℕ)
      → not (gid == invalid_id) ≡ true
      → s0.self.group.gr_gid ≡ gid
      → s0.self.group.gr_gid ≢ invalid_id
  has_id gid n e = ground arith

  -- `gumd_daemon_group_delete` where the group file can be read, with its entries as `fgetgrent` gives
  -- them. Where it returns TRUE, the object still has the id, and the name, if one was set, that it had
  -- at the start, and either some user has the group as the primary one and the file is as it was, or
  -- no user has, nor has the process, and the file has lost the first entry with that id and name.
  -- Where it returns FALSE, the file is as it was, or the entry is lost all the same.
  pub group_delete-Deleted : Post (λ _ t. Deleted t) Settles (group_delete os c s0)
  unfolding group_delete gets
  group_delete-Deleted =
      Post-bind (λ _ t. Known t) (λ _ t. Deleted t) Settles _ _ s0 locked
        λ _ t0 h0.
          Post-bind (λ gid t. Known t × (s0.self.group.gr_gid ≡ gid)) (λ _ t. Deleted t) Settles _ _
            t0 (h0, ap (λ o. o.group.gr_gid) (sym h0.1))
            λ gid t1 h1.
              Post-bind
                (λ _ u.
                  (not (gid == invalid_id) ≡ true) × (u.self ≡ t1.self) × (u.world ≡ t1.world))
                (λ _ t. Deleted t) Settles _ _ t1 (required _ _ t1 h1.0.0)
                λ _ t2 h2.
                  Post-bind (λ _ t. Same t) (λ _ t. Deleted t) Settles _ _ t2
                    (copied t2 (rw (h2.1, h2.2) h1.0) (has_id gid (h2.0) h1.1))
                    λ _ t3 h3. when_copied t3 h3
