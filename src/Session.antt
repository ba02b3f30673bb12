-- ===== src/Session.antt =====
-- src/daemon/core/gumd-daemon-user.c: ending the sessions of a user by way of logind, as it is built with
-- systemd and without the tests. The calls over D-Bus are parameters.
use platform_upstream_gumd.Common.{
  ℕ, Bool, true, false, not, ◌&&◌, Option, none, some, List, [], ◌∷◌, ◌==◌, if◌then◌else◌,
}

-- How the calls turn out: `ListSessions` gives the users of the sessions, before and after
-- `TerminateUser`.
pub record Login : Type 0 where
  pub connected : Bool
  pub proxied : Bool
  pub sessions : Option (List ℕ)
  pub terminated : Bool
  pub sessions_after : Option (List ℕ)

-- The loop over the sessions.
unfoldable pub has_session : List ℕ → ℕ → Bool
has_session [] uid = false
has_session (c_uid ∷ rest) uid =
    let later = has_session rest uid in if c_uid == uid then true else later

unfoldable pub is_user_logged_in : Option (List ℕ) → ℕ → Bool
unfolding has_session
is_user_logged_in none uid = false
is_user_logged_in (some sessions) uid = has_session sessions uid

-- The error of `TerminateUser` counts only if the user still has a session.
unfoldable pub terminate_user : Login → ℕ → Bool
unfolding is_user_logged_in
terminate_user login uid =
    if not (login.connected && login.proxied)
    then false
    else if is_user_logged_in login.sessions uid
    then not (is_user_logged_in login.sessions_after uid && not login.terminated)
    else true
