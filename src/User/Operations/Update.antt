-- ===== src/User/Operations/Update.antt =====
-- What `gumd_daemon_user_update` does to the passwd file.
use platform_upstream_gumd.Common.{
  ℕ, ◌≡◌, ◌⊎◌, inl, inr, refl, ap, ◌∙◌, Bool, true, ◌&&◌, Option, none, some, List, Str, ◌==◌,
  strcmp0_eq, strcmp0_eq_iff, arith,
}
use platform_upstream_gumd.Error.{Error, Result, ok, err}
use platform_upstream_gumd.Database.{Passwd, stored_passwd}
use platform_upstream_gumd.StringUtils.{Strv}
use platform_upstream_gumd.File.{modify}
use platform_upstream_gumd.File.Update.{update-Outcome}
use platform_upstream_gumd.File.Placement.{Settled, replace_first, any, loop-replace_first}
use platform_upstream_gumd.World.{
  Config, Os, State, Action, combinators, lock_db, unlock_db, or_unlock,
}
use platform_upstream_gumd.World.Post.{
  Post, Triple, seq, chain, gets-Triple, require-Triple, or_unlock-Triple,
}
use platform_upstream_gumd.World.Frame.{Keeps, accounts, frame_rules, set_self-Keeps, reads-Keeps}
use platform_upstream_gumd.User.{UserObject, usertype, gecos_string}
use platform_upstream_gumd.User.Entries.{passwd_rules, update_passwd_entry}
use platform_upstream_gumd.User.Fields.{get_passwd, update_userinfo}
use platform_upstream_gumd.User.Steps.{update_passwd}
use platform_upstream_gumd.User.Operations.{change_icon, change_secret, change_gecos, user_update}
use platform_upstream_gumd.User.Operations.Still.{Still, update_shadow-Still}
use platform_upstream_gumd.User.Operations.Prepared.{set_user_secret-Keeps}

module _ (glib : Strv) (os : Os) (c : Config) where
  update_userinfo-Keeps : (icon : Option Str) → Keeps (update_userinfo os c icon)
  unfolding update_userinfo
  update_userinfo-Keeps none = record { keeps = λ s. ground arith }
  update_userinfo-Keeps (some icon) = record { keeps = λ s. ground arith }

  change_icon-Keeps : Keeps (change_icon glib os c)
  unfolding change_icon
  change_icon-Keeps = search (frame_rules, update_userinfo-Keeps) depth 20

  change_secret-Keeps : (pw : Passwd) → Keeps (change_secret glib os c pw)
  unfolding change_secret
  change_secret-Keeps pw = search (frame_rules, set_user_secret-Keeps) depth 20

module _ (glib : Strv) (os : Os) (c : Config) (s0 : State UserObject) (es : List Passwd)
    (file : s0.world.passwd.source ≡ some es) (settled : Settled stored_passwd es) where
  -- The entry that is meant by the object, by the name that it had.
  abbrev pub meant : Passwd → State UserObject → Passwd → Bool
  meant pw t e =
      t.self.pw.pw_uid == e.pw_uid
      && t.self.pw.pw_gid == e.pw_gid
      && strcmp0_eq (elim pw.pw_name [ none ↦ t.self.pw.pw_name | some old ↦ some old ]) e.pw_name

  -- The object's type is that of the entry, or its gecos is NULL.
  abbrev pub TypeKept : Passwd → State UserObject → Type 0
  TypeKept pw t =
      (t.self.pw.pw_gecos ≡ none)
      ⊎ (gecos_string glib t.self.pw.pw_gecos usertype ≡ gecos_string glib pw.pw_gecos usertype)

  abbrev pub Found : Passwd → State UserObject → Type 0
  Found pw t =
      (t.world.passwd ≡ s0.world.passwd) × (get_passwd glib s0.self s0.world.passwd ≡ ok pw)

  -- The file has the object's entry in place of the first that is meant.
  abbrev pub Replaced : Passwd → State UserObject → Type 0
  Replaced pw t =
      (get_passwd glib s0.self s0.world.passwd ≡ ok pw)
      × TypeKept pw t
      × (t.world.passwd.source ≡ some (replace_first (meant pw t) (stored_passwd t.self.pw) es))
      × (any (meant pw t) es ≡ true)

  abbrev pub Unchanged : State UserObject → Type 0
  Unchanged t = t.world.passwd.source ≡ s0.world.passwd.source

  abbrev pub Updated : State UserObject → Type 0
  Updated t = (pw : Passwd) × Replaced pw t

  abbrev pub Settles : State UserObject → Type 0
  Settles t = Unchanged t ⊎ Updated t

  abbrev Same : State UserObject → Type 0
  Same t = (t.world.passwd ≡ s0.world.passwd) × (t.self ≡ s0.self)

  abbrev Checked : Passwd → State UserObject → Type 0
  Checked pw t = Found pw t × TypeKept pw t

  unlock-Settles : (t : State UserObject) → Settles t → Settles (unlock_db os t).1
  unfolding unlock_db
  unlock-Settles t h = h

  Found-Settles : (pw : Passwd) (t : State UserObject) → Found pw t → Settles t
  Found-Settles pw t h = inl (ap (λ f. f.source) h.0)

  guarded :
      {A : Type 0} {P : State UserObject → Type 0} {R : A → State UserObject → Type 0}
      (m : Action UserObject A)
      → Triple P R Settles m
      → Triple P R Settles (or_unlock os m)
  guarded {P = P} {R = R} m p = or_unlock-Triple os P R Settles Settles m unlock-Settles p

  started : Triple Same (λ _ t. Same t) Settles (lock_db os)
  unfolding lock_db
  started = record { holds = λ s h. ground (arith, ap (λ f. f.source) h.0) }

  read : Triple Same Found Settles (λ s. (get_passwd glib s.self s.world.passwd, s))
  read = record { holds = λ s h. ground (arith, ap (λ f. f.source) h.0) }

  passwd_after :
      {A : Type 0} (pw : Passwd) (s : State UserObject) (x : Result A × State UserObject)
      → Found pw s
      → accounts x.1 ≡ accounts s
      → Post (λ _ t. Found pw t) Settles x
  passwd_after pw s (ok a, t) h k = (ap (λ a. a.0) k ∙ h.0, h.1)
  passwd_after pw s (err e, t) h k = inl (ap (λ f. f.source) (ap (λ a. a.0) k ∙ h.0))

  passwd_kept :
      {A : Type 0} (pw : Passwd) (m : Action UserObject A)
      → Keeps m
      → Triple (Found pw) (λ _ t. Found pw t) Settles m
  passwd_kept pw m p = record { holds = λ s h. passwd_after pw s (m s) h (p.keeps s) }

  gecos_checked :
      (pw : Passwd) → Triple (Found pw) (λ _ t. Checked pw t) Settles (change_gecos glib os c pw)
  unfolding change_gecos combinators
  gecos_checked pw = record {
    holds = λ s h. ground (
      arith,
      Found-Settles pw s h,
      strcmp0_eq_iff (gecos_string glib s.self.pw.pw_gecos usertype)
          (gecos_string glib pw.pw_gecos usertype),
      strcmp0_eq_iff pw.pw_gecos s.self.pw.pw_gecos,
    );
  }

  callback_modify :
      (o : UserObject) (old : Option Str) (put_ok : ℕ → Passwd → Bool)
      → (update_passwd_entry o modify old put_ok es
            ≡ ok (replace_first (passwd_rules o old).replaces (stored_passwd o.pw) es))
          × (any (passwd_rules o old).replaces es ≡ true)
        ⊎ (e : Error) × (update_passwd_entry o modify old put_ok es ≡ err e)
  unfolding update_passwd_entry passwd_rules
  callback_modify o old put_ok =
      elim (loop-replace_first (passwd_rules o old) put_ok 0 es settled) [
        | inl e ↦ inl e
        | inr e ↦ inr (_, e)
      ]

  written :
      (pw : Passwd)
      → Triple
          (Checked pw)
          (λ _ t. Replaced pw t)
          Settles
          (update_passwd glib os c modify pw.pw_name)
  unfolding update_passwd passwd_rules
  written pw = record {
    holds = λ s h.
        let io = os.passwd_io s.world.calls in
        let cb = update_passwd_entry s.self modify pw.pw_name in
        ground
          (arith, update-Outcome io cb s.world.passwd, callback_modify s.self pw.pw_name io.put_ok);
  }

  replaced_after :
      {A : Type 0} (pw : Passwd) (s : State UserObject) (x : Result A × State UserObject)
      → Replaced pw s
      → (x.1.world.passwd ≡ s.world.passwd) × (x.1.self ≡ s.self)
      → Post (λ _ t. Replaced pw t) Settles x
  replaced_after pw s (ok a, t) h k = rw (k.1, k.0) h
  replaced_after pw s (err e, t) h k = inr (pw, rw (k.1, k.0) h)

  replaced_kept :
      (pw : Passwd) (m : Action UserObject (Unit {0}))
      → Still m
      → Triple (Replaced pw) (λ _ t. Replaced pw t) Settles m
  replaced_kept pw m p = record { holds = λ s h. replaced_after pw s (m s) h (p.still s) }

  ended : (pw : Passwd) → Triple (Replaced pw) (λ _ t. Updated t) Settles (unlock_db os)
  unfolding unlock_db
  ended pw = record { holds = λ s h. (pw, h) }

  -- `gumd_daemon_user_update` where the passwd file can be read, with its entries as `fgetpwent` gives
  -- them. Where it returns TRUE, the object's uid and name had an entry; the file has the object's
  -- entry in place of the first with the object's ids and that entry's name; and the type in gecos is
  -- that entry's, unless the object's gecos is NULL. Where it returns FALSE, the file is as it was, or
  -- has been changed so all the same.
  pub user_update-Updated : Post (λ _ t. Updated t) Settles (user_update glib os c s0)
  unfolding user_update
  user_update-Updated =
      (seq started λ _. seq (gets-Triple Same Settles _) λ uid.
          seq (guarded _ (require-Triple Same Settles _ _ (λ t h. inl (ap (λ f. f.source) h.0))))
            λ _. chain (guarded _ read) λ pw.
              seq (guarded _ (passwd_kept pw _ (reads-Keeps _))) λ shadow.
                seq (guarded _ (passwd_kept pw _ (change_icon-Keeps glib os c))) λ new_icon.
                  seq (passwd_kept pw _ (set_self-Keeps _)) λ _.
                    seq (guarded _ (passwd_kept pw _ (change_secret-Keeps glib os c pw)))
                      λ new_secret. seq (guarded _ (gecos_checked pw)) λ new_gecos.
                        seq (gets-Triple (Checked pw) Settles _) λ new_shell.
                          seq
                            (guarded _ (
                              require-Triple (Checked pw) Settles _ _
                                (λ t h. Found-Settles pw t h.0)))
                            λ _. seq (guarded _ (written pw)) λ _.
                              seq
                                (guarded _ (
                                  replaced_kept pw _
                                    (update_shadow-Still glib os c modify pw.pw_name)))
                                λ _. ended pw).holds
        s0 (refl, refl)
