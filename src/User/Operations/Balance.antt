-- ===== src/User/Operations/Balance.antt =====
-- Every operation on a user leaves the counter of the lock as it found it.
use platform_upstream_gumd.Common.{
  ℕ, suc, ◌≡◌, refl, ◌∙◌, Bool, false, Option, none, some, Str, arith,
}
use platform_upstream_gumd.Error.{Error, Result, ok, err}
use platform_upstream_gumd.Database.{Passwd}
use platform_upstream_gumd.StringUtils.{Strv}
use platform_upstream_gumd.Group.Membership.Balance.{delete_user_membership-Steady}
use platform_upstream_gumd.World.{Config, Os, State, Action, require, lock_db}
use platform_upstream_gumd.World.Locking.{Steady, count, unlock_db-Closes, Ends, lock_db-Ends}
use platform_upstream_gumd.User.{UserObject}
use platform_upstream_gumd.User.Operations.{
  user_add, or_unlock_user, failing_with, end_sessions, check_not_self, delete_user_entries,
  user_delete, change_icon, change_secret, change_gecos, user_update, user_constructed,
  construct_locked, construct_user, user_new_by_uid, user_new_by_name,
}
use platform_upstream_gumd.User.Steps.Balance.{
  user_steps, lock_user-Steady, copy_passwd_data-Steady,
}

module _ (glib : Strv) (os : Os) (c : Config) where
  user_add-Steady : Steady (user_add glib os c)
  unfolding user_add
  user_add-Steady = search user_steps depth 60

  or_unlock_user-Steady :
      {A : Type 0} (m : Action UserObject A) → Steady m → Steady (or_unlock_user glib os c m)
  unfolding or_unlock_user
  or_unlock_user-Steady m p = record {
    steady = λ s. ground (arith, p.steady s, (lock_user-Steady glib os c false).steady (m s).1);
  }

  failing_with-Steady :
      {A : Type 0} (e : Error) (m : Action UserObject A)
      → Steady m
      → Steady (failing_with glib os c e m)
  unfolding failing_with
  failing_with-Steady e m p = record { steady = λ s. ground (arith, p.steady s) }

  end_sessions-Steady : Steady (end_sessions glib os c)
  unfolding end_sessions
  end_sessions-Steady = record { steady = λ s. refl }

  delete_user_entries-Steady : Steady (delete_user_entries glib os c)
  unfolding delete_user_entries
  delete_user_entries-Steady = search user_steps

  check_not_self-Steady : Steady (check_not_self glib os c)
  unfolding check_not_self require
  check_not_self-Steady = record { steady = λ s. refl }

  user_delete-Steady : (rem : Bool) → Steady (user_delete glib os c rem)
  unfolding user_delete
  user_delete-Steady rem =
      search
        (
          user_steps, or_unlock_user-Steady, failing_with-Steady, check_not_self-Steady,
          end_sessions-Steady, delete_user_entries-Steady, delete_user_membership-Steady,
        )
        depth 60

  change_icon-Steady : Steady (change_icon glib os c)
  unfolding change_icon
  change_icon-Steady = search user_steps depth 20

  change_secret-Steady : (pw : Passwd) → Steady (change_secret glib os c pw)
  unfolding change_secret
  change_secret-Steady pw = search user_steps depth 20

  change_gecos-Steady : (pw : Passwd) → Steady (change_gecos glib os c pw)
  unfolding change_gecos
  change_gecos-Steady pw = search user_steps depth 20

  user_update-Steady : Steady (user_update glib os c)
  unfolding user_update
  user_update-Steady =
      search (user_steps, change_icon-Steady, change_secret-Steady, change_gecos-Steady) depth 60

  user_constructed-count :
      (s : State UserObject) (n : ℕ) → count s ≡ suc n → count (user_constructed glib os c s).1 ≡ n
  unfolding user_constructed
  user_constructed-count s n h =
      (unlock_db-Closes os).closes n _ ((copy_passwd_data-Steady glib os c).steady s ∙ h)

  construct_locked-count :
      (o : UserObject) (n : ℕ) (x : Result (Unit {0}) × State UserObject)
      → Ends n x
      → count (construct_locked glib os c o x).1 ≡ n
  unfolding construct_locked
  construct_locked-count o n (err e, t) h = h
  construct_locked-count o n (ok _, t) h = user_constructed-count (record t { self = o }) n h

  construct_user-count :
      (o : UserObject) (s : State UserObject) → count (construct_user glib os c o s).1 ≡ count s
  unfolding construct_user
  construct_user-count o s = construct_locked-count o (count s) (lock_db os s) (lock_db-Ends os s)

-- The operations of a user object and their arguments, with the two that look a user up.
pub data UserOperation : Type 0 where
  adds updates : UserOperation
  deletes : Bool → UserOperation
  looks_up : ℕ → UserOperation
  looks_up_name : Option Str → UserOperation

pub perform_user : Strv → Os → Config → UserOperation → State UserObject → State UserObject
perform_user glib os c adds s = (user_add glib os c s).1
perform_user glib os c updates s = (user_update glib os c s).1
perform_user glib os c (deletes rem) s = (user_delete glib os c rem s).1
perform_user glib os c (looks_up uid) s = (user_new_by_uid glib os c uid s).1
perform_user glib os c (looks_up_name name) s = (user_new_by_name glib os c name s).1

-- Each operation gives back the locks that it takes, with those of the operations on groups that it
-- calls, on every path and however the calls of the system turn out.
pub perform_user-count :
    (glib : Strv) (os : Os) (c : Config) (op : UserOperation) (s : State UserObject)
    → count (perform_user glib os c op s) ≡ count s
unfolding perform_user user_new_by_uid user_new_by_name
perform_user-count glib os c adds s = (user_add-Steady glib os c).steady s
perform_user-count glib os c updates s = (user_update-Steady glib os c).steady s
perform_user-count glib os c (deletes rem) s = (user_delete-Steady glib os c rem).steady s
perform_user-count glib os c (looks_up uid) s = construct_user-count glib os c _ s
perform_user-count glib os c (looks_up_name none) s = refl
perform_user-count glib os c (looks_up_name (some name)) s = construct_user-count glib os c _ s
