-- ===== src/Client/Agreed.antt =====
-- The library's objects at the ends of the bus: an offline one, and one whose requests an adapter of the
-- daemon handles.
use platform_upstream_gumd.Common.{ℕ, ◌≡◌, refl, sym, ap, ◌∙◌, Bool, true, false, Option, some, Str}
use platform_upstream_gumd.Error.{Result, ok, err}
use platform_upstream_gumd.StringUtils.{Strv}
use platform_upstream_gumd.World.{Config, Os}
use platform_upstream_gumd.Daemon.{Daemon, add_user, delete_user, update_user}
use platform_upstream_gumd.Service.{Exports, Service}
use platform_upstream_gumd.Service.Requests.{
  Answer, added, done, error, with_disposable, kept_at, kept-object, handle, deletion_done,
  handle_deletion,
}
use platform_upstream_gumd.Service.Users.{handle_add_user, handle_delete_user, handle_update_user}
use platform_upstream_gumd.Client.{Reply, finished, failed, remote}
use platform_upstream_gumd.Client.Sync.{Site, local_at, proxy_at, is_ok, succeeded, act_sync}
use platform_upstream_gumd.Client.Users.{
  UserMethod, add_this_user, delete_this_user, update_this_user, gum_user_add_sync,
  gum_user_delete_sync, gum_user_update_sync,
}

-- What of an answer the library looks at.
abbrev pub reply_of : Answer → Reply
reply_of (added id) = finished
reply_of done = finished
reply_of (error e) = failed (remote e)

abbrev pub sent : {R : Type 0} → Answer × R → Reply × R
sent (x, t) = (reply_of x, t)

-- The result and the daemon of a call on either side.
abbrev pub here : {D R : Type 0} → Bool × Site D R → Bool × D
here (b, s) = (b, s.daemon)

abbrev pub there : {D D' : Type 0} → Bool × Site D' (Service D) → Bool × D
there (b, s) = (b, s.remote.daemon)

abbrev pub told : {D : Type 0} → Answer × Service D → Bool × D
told (x, t) = (succeeded (reply_of x), t.daemon)

abbrev answered_there : {D : Type 0} → Reply × Service D → Bool × D
answered_there (r, t) = (succeeded r, t.daemon)

abbrev pub outcome : {A D : Type 0} → Result A × D → Bool × D
outcome (r, d) = (is_ok r, d)

module _ {D : Type 0} (exports : Exports) where
  reply_of-is_ok :
      {A : Type 0} (reply : A → D → Answer) (r : Result A) (d : D)
      → ((x : A) (d : D) → succeeded (reply_of (reply x d)) ≡ true)
      → succeeded (reply_of (elim r [ ok x ↦ reply x d | err e ↦ error e ])) ≡ is_ok r
  reply_of-is_ok reply (ok x) d good = good x d
  reply_of-is_ok reply (err e) d good = refl

  handle-told :
      {A : Type 0} (a : ℕ) (act : ℕ → D → Result A × D) (reply : A → D → Answer) (t : Service D)
      → ((x : A) (d : D) → succeeded (reply_of (reply x d)) ≡ true)
      → told (handle exports a act reply t) ≡ outcome (act (t.adapters a).object t.daemon)
  unfolding handle with_disposable
  handle-told a act reply t good =
      let p = act ((kept_at exports a false t).adapters a).object t.daemon in
      ap (λ b. (b, p.1)) (reply_of-is_ok reply p.0 p.1 good)
      ∙ ap (λ h. outcome (act h t.daemon)) (kept-object exports a t)

  told-deletion_done :
      {A : Type 0} (a : ℕ) (r : Result A) (t : Service D)
      → told (deletion_done exports a r t) ≡ (is_ok r, t.daemon)
  unfolding deletion_done with_disposable
  told-deletion_done a (ok x) t = refl
  told-deletion_done a (err e) t = refl

  handle_deletion-told :
      {A : Type 0} (a : ℕ) (act : ℕ → D → Result A × D) (t : Service D)
      → told (handle_deletion exports a act t) ≡ outcome (act (t.adapters a).object t.daemon)
  unfolding handle_deletion with_disposable
  handle_deletion-told a act t =
      let p = act ((kept_at exports a false t).adapters a).object t.daemon in
      told-deletion_done a p.0
        (kept_at exports a true (record (kept_at exports a false t) { daemon = p.1 }))
      ∙ ap (λ h. outcome (act h t.daemon)) (kept-object exports a t)

module _ (glib : Strv) (os : Os) (c : Config) (exports : Exports) (timeout : ℕ)
    (call : UserMethod → Option Str → Service Daemon → Reply × Service Daemon) (available : Bool)
    (proxied : Str → Bool) where
  -- The bus takes the calls of a path to its adapter, and the answers back.
  pub record Delivers (p : Str) (a : ℕ) : Type 0 where
    pub adds :
        (t : Service Daemon)
        → call add_this_user (some p) t ≡ sent (handle_add_user glib os c exports timeout a t)
    pub deletes :
        (rem_home_dir : Bool) (t : Service Daemon)
        → call (delete_this_user rem_home_dir) (some p) t
          ≡ sent (handle_delete_user glib os c exports timeout a rem_home_dir t)
    pub updates :
        (t : Service Daemon)
        → call update_this_user (some p) t ≡ sent (handle_update_user glib os c exports timeout a t)

  -- Adding, deleting and updating a user, of a library's object whose calls an adapter handles: the result and
  -- the daemon afterwards are those that an offline object has for the same user of a daemon in the same
  -- state.
  pub sync_agrees :
      (p : Str) (a : ℕ) (s : Site Daemon (Service Daemon)) (rem_home_dir : Bool)
      → Delivers p a
      → s.daemon ≡ s.remote.daemon
      → let mine = local_at (s.remote.adapters a).object in
        (here (gum_user_add_sync glib os c call available proxied mine s)
          ≡ there (gum_user_add_sync glib os c call available proxied (proxy_at p) s))
        × ((here (gum_user_delete_sync glib os c call available proxied mine rem_home_dir s)
              ≡ there (
                  gum_user_delete_sync glib os c call available proxied
                    (proxy_at p)
                    rem_home_dir
                    s))
            × (here (gum_user_update_sync glib os c call available proxied mine s)
                ≡ there (gum_user_update_sync glib os c call available proxied (proxy_at p) s)))
  unfolding gum_user_add_sync gum_user_delete_sync gum_user_update_sync handle_add_user
      handle_delete_user handle_update_user act_sync
  sync_agrees p a s rem_home_dir delivers same =
      let own = (s.remote.adapters a).object in
      (
        ap (λ d. outcome (add_user glib os c own d)) same
            ∙ sym (
                handle-told exports a (add_user glib os c) (λ x d. added (d.users.at own).pw.pw_uid)
                  s.remote (λ x d. refl))
            ∙ sym (ap answered_there (delivers.adds s.remote)),
        (
          ap (λ d. outcome (delete_user glib os c own rem_home_dir d)) same
              ∙ sym (
                  handle_deletion-told exports a (λ h. delete_user glib os c h rem_home_dir)
                    s.remote)
              ∙ sym (ap answered_there (delivers.deletes rem_home_dir s.remote)),
          ap (λ d. outcome (update_user glib os c own d)) same
              ∙ sym (
                  handle-told exports a (update_user glib os c) (λ x d. done) s.remote
                    (λ x d. refl))
              ∙ sym (ap answered_there (delivers.updates s.remote)),
        ),
      )
