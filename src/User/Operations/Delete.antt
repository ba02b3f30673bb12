-- ===== src/User/Operations/Delete.antt =====
-- What `gumd_daemon_user_delete` does to the passwd file.
use platform_upstream_gumd.Common.{
  ℕ, ◌≡◌, ◌≢◌, ◌⊎◌, inl, inr, refl, ap, ◌∙◌, Bool, true, false, not, ◌&&◌, Option, none, some, List,
  ◌==◌, strcmp0_eq, arith,
}
use platform_upstream_gumd.Error.{Error, Result, ok, err}
use platform_upstream_gumd.Database.{Passwd, stored_passwd}
use platform_upstream_gumd.StringUtils.{Strv}
use platform_upstream_gumd.File.{delete, invalid_id}
use platform_upstream_gumd.File.Update.{update-Outcome}
use platform_upstream_gumd.File.Placement.{Settled, remove_first, any, loop-remove_first}
use platform_upstream_gumd.World.{
  Config, Os, State, Action, combinators, ◌>>◌, pure, gets, when, require, userdel_dir, lock_db,
  unlock_db, or_unlock,
}
use platform_upstream_gumd.World.Post.{Post, Triple, seq, chain, gets-Triple, or_unlock-Triple}
use platform_upstream_gumd.User.{UserObject}
use platform_upstream_gumd.User.Entries.{passwd_rules, update_passwd_entry}
use platform_upstream_gumd.User.Fields.{copy_passwd_data}
use platform_upstream_gumd.User.Operations.Asked.{Asked, copy_passwd_data-Asked}
use platform_upstream_gumd.User.Steps.{update_passwd, lock_user, delete_home}
use platform_upstream_gumd.User.Operations.{
  or_unlock_user, failing_with, check_not_self, delete_user_entries, user_delete,
}
use platform_upstream_gumd.User.Operations.Still.{
  Still, update_shadow-Still, lock_user-Still, run_user_scripts-Still, delete_userinfo-Still,
  delete_home-Still, delete_group_of-Still, end_sessions-Still, failing_with-Still,
  or_unlock_user-Still, delete_user_membership-Still,
}

module _ (glib : Strv) (os : Os) (c : Config) (s0 : State UserObject) (es : List Passwd)
    (file : s0.world.passwd.source ≡ some es) (settled : Settled stored_passwd es) where
  -- The entry of the user that the object stands for.
  abbrev pub meant : State UserObject → Passwd → Bool
  meant t e =
      t.self.pw.pw_uid == e.pw_uid
      && t.self.pw.pw_gid == e.pw_gid
      && strcmp0_eq t.self.pw.pw_name e.pw_name

  -- The passwd file has lost the first entry of the user with the id, and with the name, if one was
  -- set, that the object had at the start; it is not the user of the process.
  abbrev pub Removed : State UserObject → Type 0
  Removed t =
      Asked s0.self t.self
      × (t.self.pw.pw_uid ≢ os.geteuid)
      × (t.world.passwd.source ≡ some (remove_first (meant t) es))
      × (any (meant t) es ≡ true)

  abbrev pub Unchanged : State UserObject → Type 0
  Unchanged t = t.world.passwd.source ≡ s0.world.passwd.source

  abbrev pub Settles : State UserObject → Type 0
  Settles t = Unchanged t ⊎ Removed t

  abbrev Same : State UserObject → Type 0
  Same t = t.world.passwd ≡ s0.world.passwd

  -- The object is as it was, and has an id.
  abbrev Known : State UserObject → Type 0
  Known t = Same t × (t.self ≡ s0.self) × (s0.self.pw.pw_uid ≢ invalid_id)

  abbrev Filled : State UserObject → Type 0
  Filled t = Same t × Asked s0.self t.self

  abbrev Ready : State UserObject → Type 0
  Ready t = Same t × Asked s0.self t.self × (t.self.pw.pw_uid ≢ os.geteuid)

  callback_delete :
      (o : UserObject) (put_ok : ℕ → Passwd → Bool)
      → (update_passwd_entry o delete none put_ok es
            ≡ ok (remove_first (passwd_rules o none).deletes es))
          × (any (passwd_rules o none).deletes es ≡ true)
        ⊎ (e : Error) × (update_passwd_entry o delete none put_ok es ≡ err e)
  unfolding update_passwd_entry passwd_rules
  callback_delete o put_ok = elim (loop-remove_first (passwd_rules o none) put_ok 0 es settled) [
    | inl e ↦ inl e
    | inr e ↦ inr (_, e)
  ]

  update_passwd-Removed :
      Triple Ready (λ _ t. Removed t) Settles (update_passwd glib os c delete none)
  unfolding update_passwd passwd_rules
  update_passwd-Removed = record {
    holds = λ s h.
        let io = os.passwd_io s.world.calls in
        let cb = update_passwd_entry s.self delete none in
        ground (arith, update-Outcome io cb s.world.passwd, callback_delete s.self io.put_ok);
  }

  removed_after :
      {A : Type 0} (s : State UserObject) (x : Result A × State UserObject)
      → Removed s
      → (x.1.world.passwd ≡ s.world.passwd) × (x.1.self ≡ s.self)
      → Post (λ _ t. Removed t) Settles x
  removed_after s (ok a, t) h k = rw (k.1, k.0) h
  removed_after s (err e, t) h k = inr (rw (k.1, k.0) h)

  ready_after :
      {A : Type 0} (s : State UserObject) (x : Result A × State UserObject)
      → Ready s
      → (x.1.world.passwd ≡ s.world.passwd) × (x.1.self ≡ s.self)
      → Post (λ _ t. Ready t) Settles x
  ready_after s (ok a, t) h k = rw (k.1, k.0) h
  ready_after s (err e, t) h k = inl (ap (λ f. f.source) (k.0 ∙ h.0))

  unlock-Settles : (t : State UserObject) → Settles t → Settles (unlock_db os t).1
  unfolding unlock_db
  unlock-Settles t h = h

  Same-Settles : (t : State UserObject) → Same t → Settles t
  Same-Settles t h = inl (ap (λ f. f.source) h)

  module _ {A : Type 0} where
    -- A step that leaves the passwd file and the object alone, before and after the file is written.
    ready_kept : (m : Action UserObject A) → Still m → Triple Ready (λ _ t. Ready t) Settles m
    ready_kept m p = record { holds = λ s h. ready_after s (m s) h (p.still s) }

    removed_kept : (m : Action UserObject A) → Still m → Triple Removed (λ _ t. Removed t) Settles m
    removed_kept m p = record { holds = λ s h. removed_after s (m s) h (p.still s) }

    -- A step under the lock.
    guarded :
        {P R : State UserObject → Type 0} (m : Action UserObject A)
        → Triple P (λ _ t. R t) Settles m
        → Triple P (λ _ t. R t) Settles (or_unlock os m)
    guarded {P = P} {R = R} m p =
        or_unlock-Triple os P (λ _ t. R t) Settles Settles m unlock-Settles p

  abbrev Untouched : State UserObject → Type 0
  Untouched t = Same t × (t.self ≡ s0.self)

  started : Triple Untouched (λ _ t. Untouched t) Settles (lock_db os)
  unfolding lock_db
  started = record { holds = λ s h. ground (arith, Same-Settles s h.0) }

  uid_read :
      Triple Untouched
        (λ uid t. Untouched t × (uid ≡ s0.self.pw.pw_uid))
        Settles
        (gets (λ s. s.self.pw.pw_uid))
  unfolding gets
  uid_read = record { holds = λ s h. (h, ap (λ o. o.pw.pw_uid) h.1) }

  uid_set :
      (uid : ℕ)
      → Triple
          (λ t. Untouched t × (uid ≡ s0.self.pw.pw_uid))
          (λ _ t. Known t)
          Settles
          (require (not (uid == invalid_id)) Error.user_not_found)
  unfolding require
  uid_set uid = record { holds = λ s h. ground (arith, Same-Settles s h.0.0) }

  filled :
      (s : State UserObject) (x : Result (Unit {0}) × State UserObject)
      → Known s
      → Post (λ _ t. (t.world ≡ s.world) × Asked s.self t.self) (λ t. t.world ≡ s.world) x
      → Post (λ _ t. Filled t) Settles (failing_with glib os c Error.user_not_found (λ _. x) s)
  unfolding failing_with
  filled s (ok a, t) h k = (ap (λ w. w.passwd) k.0 ∙ h.0, rw h.1 at k.1)
  filled s (err e, t) h k = Same-Settles t (ap (λ w. w.passwd) k ∙ h.0)

  copied :
      Triple Known
        (λ _ t. Filled t)
        Settles
        (failing_with glib os c Error.user_not_found (copy_passwd_data glib c))
  unfolding failing_with
  copied = record {
    holds = λ s h.
        filled s (copy_passwd_data glib c s) h (copy_passwd_data-Asked glib c s (rw h.1 h.2));
  }

  checked : Triple Filled (λ _ t. Ready t) Settles (check_not_self glib os c)
  unfolding check_not_self require
  checked = record { holds = λ s h. ground (arith, Same-Settles s h.0) }

  -- The user is unlocked again where the files could not be changed, which leaves the passwd file alone.
  relocked :
      (m : Action UserObject (Unit {0}))
      → Triple Ready (λ _ t. Removed t) Settles m
      → Triple Ready (λ _ t. Removed t) Settles (or_unlock_user glib os c m)
  unfolding or_unlock_user lock_user
  relocked m p = record { holds = λ s h. ground (arith, p.holds s h) }

  entries_deleted : Triple Ready (λ _ t. Removed t) Settles (delete_user_entries glib os c)
  unfolding delete_user_entries
  entries_deleted =
      seq update_passwd-Removed λ _. removed_kept _ (update_shadow-Still glib os c delete none)

  home_deleted :
      (rem : Bool)
      → Triple Removed (λ _ t. Removed t) Settles (when rem (or_unlock os (delete_home glib os c)))
  unfolding when
  home_deleted true = guarded _ (removed_kept _ (delete_home-Still glib os c))
  home_deleted false = record { holds = λ s h. h }

  ended :
      (noted : Option Error)
      → Triple Removed (λ _ t. Removed t) Settles (unlock_db os >> pure noted)
  unfolding unlock_db combinators
  ended noted = record { holds = λ s h. h }

  -- `gumd_daemon_user_delete` where the passwd file can be read, with its entries as `fgetpwent` gives
  -- them. Where it returns TRUE, the object still has the id, and the name, if one was set, that it had
  -- at the start; the user is not the one of the process, and the file has lost the first entry with
  -- that id and name and the group of the user. Where it returns FALSE, the file is as it was, or the
  -- entry is lost all the same.
  pub user_delete-Removed :
      (rem_home_dir : Bool)
      → Post (λ _ t. Removed t) Settles (user_delete glib os c rem_home_dir s0)
  unfolding user_delete
  user_delete-Removed rem_home_dir =
      (seq started λ _. chain uid_read λ uid. seq (guarded _ (uid_set uid)) λ _.
          seq (guarded _ copied) λ _. seq (guarded _ checked) λ _.
            seq
              (guarded _
                (ready_kept _ (failing_with-Still glib os c _ _ (lock_user-Still glib os c true))))
              λ _.
                seq
                  (guarded _ (
                    ready_kept _ (or_unlock_user-Still glib os c _ (end_sessions-Still glib os c))))
                  λ _. seq (ready_kept _ (run_user_scripts-Still glib os c userdel_dir none)) λ _.
                    seq (ready_kept _ (delete_userinfo-Still glib os c)) λ _.
                      seq (guarded _ (relocked _ entries_deleted)) λ _.
                        seq (guarded _ (removed_kept _ (delete_group_of-Still glib os c))) λ _.
                          seq (gets-Triple Removed Settles _) λ name.
                            seq (guarded _ (removed_kept _ (delete_user_membership-Still os name)))
                              λ noted. seq (home_deleted rem_home_dir) λ _. ended noted).holds
        s0 (refl, refl)
