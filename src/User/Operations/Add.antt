-- ===== src/User/Operations/Add.antt =====
-- What `gumd_daemon_user_add` does to the passwd file.
use platform_upstream_gumd.Common.{
  ℕ, ◌≡◌, ◌⊎◌, inl, inr, refl, ap, ◌∙◌, Bool, Option, none, some, List, ltb, arith,
}
use platform_upstream_gumd.Error.{Error, Result, ok, err}
use platform_upstream_gumd.Database.{Passwd, stored_passwd}
use platform_upstream_gumd.StringUtils.{Strv}
use platform_upstream_gumd.Validate.{validate_name}
use platform_upstream_gumd.File.{add, getpwnam, getpwuid}
use platform_upstream_gumd.File.Update.{update-Outcome}
use platform_upstream_gumd.File.Placement.{Settled, insert_before, loop-insert_before}
use platform_upstream_gumd.World.{
  Config, Os, State, Action, combinators, ◌>>=◌, ◌>>◌, pure, gets, useradd_dir, lock_db, unlock_db,
  or_unlock, set_self,
}
use platform_upstream_gumd.World.Post.{
  Post, Triple, seq, gets-Triple, require-Triple, or_unlock-Triple,
}
use platform_upstream_gumd.User.{UserObject, usertype, gecos_string}
use platform_upstream_gumd.User.Entries.{passwd_rules, update_passwd_entry}
use platform_upstream_gumd.User.Steps.{update_passwd, run_user_scripts, default_shell}
use platform_upstream_gumd.User.Operations.{user_add}
use platform_upstream_gumd.User.Operations.Still.{
  Still, update_shadow-Still, add_userinfo-Still, create_home-Still, set_default_groups-Still,
  run_user_scripts-Still,
}
use platform_upstream_gumd.User.Operations.Prepared.{
  Same, Ready, set_uid-Ready, set_group-Ready, set_shadow_data-Ready,
}

module _ (glib : Strv) (os : Os) (c : Config) (s0 : State UserObject) (es : List Passwd)
    (file : s0.world.passwd.source ≡ some es) (settled : Settled stored_passwd es) where
  -- The passwd file has one entry more, the object's, in front of the first entry with a greater id.
  abbrev pub Added : State UserObject → Type 0
  Added t =
      (validate_name t.self.pw.pw_name ≡ ok tt)
      × (getpwnam t.self.pw.pw_name s0.world.passwd ≡ none)
      × (getpwuid t.self.pw.pw_uid s0.world.passwd ≡ none)
      × (t.world.passwd.source
          ≡ some (insert_before (λ e. ltb t.self.pw.pw_uid e.pw_uid) (stored_passwd t.self.pw) es))

  abbrev pub Unchanged : State UserObject → Type 0
  Unchanged t = t.world.passwd.source ≡ s0.world.passwd.source

  abbrev pub Settles : State UserObject → Type 0
  Settles t = Unchanged t ⊎ Added t

  abbrev pub Given : ℕ × Option Error → State UserObject → Type 0
  Given v t = (t.self.pw.pw_uid ≡ v.0) × Added t

  callback_add :
      (o : UserObject) (put_ok : ℕ → Passwd → Bool)
      → (update_passwd_entry o add none put_ok es
          ≡ ok (insert_before (λ e. ltb o.pw.pw_uid e.pw_uid) (stored_passwd o.pw) es))
        ⊎ (e : Error) × (update_passwd_entry o add none put_ok es ≡ err e)
  unfolding update_passwd_entry passwd_rules
  callback_add o put_ok = elim (loop-insert_before (passwd_rules o none) put_ok 0 es settled) [
    | inl e ↦ inl e.0
    | inr (inl e) ↦ inr (_, e.0)
    | inr (inr e) ↦ inr (_, e.0)
  ]

  update_passwd-Added :
      Triple (Ready glib os c s0) (λ _ t. Added t) Unchanged (update_passwd glib os c add none)
  unfolding update_passwd
  update_passwd-Added = record {
    holds = λ s h.
        let io = os.passwd_io s.world.calls in
        let cb = update_passwd_entry s.self add none in
        ground (arith, update-Outcome io cb s.world.passwd, callback_add s.self io.put_ok);
  }

  added_after :
      {A : Type 0} (s : State UserObject) (x : Result A × State UserObject)
      → Added s
      → (x.1.world.passwd ≡ s.world.passwd) × (x.1.self ≡ s.self)
      → Post (λ _ t. Added t) Settles x
  added_after s (ok a, t) h k = rw (k.1, k.0) h
  added_after s (err e, t) h k = inr (rw (k.1, k.0) h)

  Added_kept :
      {A : Type 0} (m : Action UserObject A) → Still m → Triple Added (λ _ t. Added t) Settles m
  Added_kept m p = record { holds = λ s h. added_after s (m s) h (p.still s) }

  unlock-Settles : (t : State UserObject) → Settles t → Settles (unlock_db os t).1
  unfolding unlock_db
  unlock-Settles t h = h

  unlock_unchanged : (t : State UserObject) → Unchanged t → Settles (unlock_db os t).1
  unfolding unlock_db
  unlock_unchanged t h = inl h

  -- A step under the lock, before the file is written.
  preparing :
      (P R : State UserObject → Type 0) (m : Action UserObject (Unit {0}))
      → Triple P (λ _ t. R t) (Same glib os c s0) m
      → Triple P (λ _ t. R t) Settles (or_unlock os m)
  preparing P R m p =
      or_unlock-Triple os P (λ _ t. R t) (Same glib os c s0) Settles m
        (λ t h. unlock_unchanged t (ap (λ f. f.source) h)) p

  -- One after it.
  following :
      (m : Action UserObject (Unit {0}))
      → Still m
      → Triple Added (λ _ t. Added t) Settles (or_unlock os m)
  following m p =
      or_unlock-Triple os Added (λ _ t. Added t) Settles Settles m unlock-Settles (Added_kept m p)

  finish :
      (noted : Option Error)
      → Triple Added Given Settles (
          gets (λ (s : State UserObject). s.self.pw.pw_uid) >>= λ uid.
          gets (λ (s : State UserObject). gecos_string glib s.self.pw.pw_gecos usertype) >>= λ type.
          run_user_scripts glib os c useradd_dir type >> (unlock_db os >> pure (uid, noted)))
  unfolding unlock_db run_user_scripts combinators
  finish noted = record {
    holds = λ s h.
        let e =
          (run_user_scripts-Still glib os c useradd_dir
              (gecos_string glib s.self.pw.pw_gecos usertype)).still
            s in
        (refl, (h.0, h.1, h.2, ap (λ f. f.source) e.0 ∙ h.3));
  }

  started : Triple (Same glib os c s0) (λ _ t. Same glib os c s0 t) Settles (lock_db os)
  unfolding lock_db
  started = record { holds = λ s h. ground (arith, ap (λ f. f.source) h) }

  Same-Settles : (t : State UserObject) → Same glib os c s0 t → Settles t
  Same-Settles t h = inl (ap (λ f. f.source) h)

  shell_set :
      Triple
        (Same glib os c s0)
        (λ _ t. Same glib os c s0 t)
        Settles
        (set_self (default_shell glib os c))
  unfolding set_self
  shell_set = record { holds = λ s h. h }

  written :
      Triple
        (Ready glib os c s0)
        (λ _ t. Added t)
        Settles
        (or_unlock os (update_passwd glib os c add none))
  written =
      or_unlock-Triple os (Ready glib os c s0) (λ _ t. Added t) Unchanged Settles _ unlock_unchanged
        update_passwd-Added

  -- `gumd_daemon_user_add` where the passwd file can be read, with its entries as `fgetpwent` gives
  -- them. Where it returns TRUE, the name is valid and no entry had it, nor the id that is given; and
  -- the file has the object's entry more, with that name and id, in front of the first entry with a
  -- greater id. Where it returns FALSE, the file is as it was, or has the new entry all the same.
  pub user_add-Added : Post Given Settles (user_add glib os c s0)
  unfolding user_add
  user_add-Added =
      let start = Same glib os c s0 in
      let ready = Ready glib os c s0 in
      (seq (gets-Triple start Settles _) λ ut.
          seq (require-Triple start Settles _ _ Same-Settles) λ _. seq shell_set λ _.
            seq started λ _. seq (preparing start ready _ (set_uid-Ready glib os c s0)) λ _.
              seq (preparing ready ready _ (set_group-Ready glib os c s0)) λ _.
                seq (preparing ready ready _ (set_shadow_data-Ready glib os c s0)) λ _.
                  seq written λ _. seq (following _ (update_shadow-Still glib os c add none)) λ _.
                    seq (Added_kept _ (add_userinfo-Still glib os c)) λ _.
                      seq (Added_kept _ (set_default_groups-Still glib os c)) λ noted.
                        seq (following _ (create_home-Still glib os c)) λ _. finish noted).holds
        s0 refl
