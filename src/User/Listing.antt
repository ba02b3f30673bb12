-- ===== src/User/Listing.antt =====
-- src/daemon/core/gumd-daemon-user.c: the list of users, and the id of a user's name.
pub mod Asked
pub mod Listed
use Prim.Native.Nat.{bit_and, bit_or}
use platform_upstream_gumd.Common.{
  ℕ, Bool, true, false, not, ◌&&◌, ◌||◌, Option, none, some, List, [], ◌∷◌, Str, leb, ◌==◌,
  if◌then◌else◌, length,
}
use platform_upstream_gumd.Error.{Error, Result, ok, err, user_invalid_user_type, file_open}
use platform_upstream_gumd.Database.{Passwd}
use platform_upstream_gumd.StringUtils.{Strv}
use platform_upstream_gumd.File.{DbFiles, invalid_id, getpwnam}
use platform_upstream_gumd.UserTypes.{
  usertype_none, usertype_system, usertype_admin, usertype_guest, usertype_normal, type_from_strv,
}
use platform_upstream_gumd.World.{
  Config, Os, State, Action, get_uint, ◌>>=◌, ◌>>◌, pure, lift, gets, require, lock_db, unlock_db,
  or_unlock,
}
use platform_upstream_gumd.User.{usertype_from_gecos}

abbrev count_types : Option (List Str) → ℕ
count_types none = 0
count_types (some v) = length v

-- The types that are asked for: no names ask for these four.
unfoldable pub asked_types : Option (List Str) → ℕ
unfolding type_from_strv
asked_types types =
    if count_types types == 0
    then bit_or (bit_or (bit_or usertype_system usertype_admin) usertype_guest) usertype_normal
    else type_from_strv types

module _ (glib : Strv) (c : Config) where
  -- `ut` of an entry: without a type, the ids of system users make one.
  unfoldable pub listed_type : Passwd → ℕ
  unfolding usertype_from_gecos
  listed_type pent =
      let ut = usertype_from_gecos glib pent.pw_gecos in
      if ut == usertype_none
        && leb (get_uint c.sys_uid_min invalid_id) pent.pw_uid
        && leb pent.pw_uid (get_uint c.sys_uid_max invalid_id)
      then usertype_system
      else ut

  -- The loop over the passwd file.
  unfoldable pub list_users : ℕ → List Passwd → List ℕ
  unfolding listed_type
  list_users in_types [] = []
  list_users in_types (pent ∷ entries) =
      let rest = list_users in_types entries in
      if not (bit_and (listed_type pent) in_types == 0) then pent.pw_uid ∷ rest else rest

  -- A file that is missing cannot be opened.
  abbrev pub read_users : ℕ → DbFiles Passwd → Result (List ℕ)
  read_users in_types f = elim f.source [
    | none ↦ err file_open
    | some entries ↦ ok (list_users in_types entries)
  ]

  unfoldable pub get_user_list : {O : Type 0} → Os → Option (List Str) → Action O (List ℕ)
  unfolding asked_types list_users
  get_user_list os types = do
    require (not (asked_types types == usertype_none)) user_invalid_user_type
    lock_db os
    users ← or_unlock os (λ s. (read_users (asked_types types) s.world.passwd, s))
    unlock_db os
    pure users

abbrev uid_of : Option Passwd → ℕ
uid_of none = invalid_id
uid_of (some p) = p.pw_uid

unfoldable pub get_uid_by_name : {O : Type 0} → Os → Option Str → State O → ℕ × State O
unfolding lock_db unlock_db getpwnam
get_uid_by_name os none s = (invalid_id, s)
get_uid_by_name os (some username) s =
    let (locked, t) = lock_db os s in
    elim locked [
      | err e ↦ (invalid_id, t)
      | ok _ ↦ (uid_of (getpwnam (some username) t.world.passwd), (unlock_db os t).1)
    ]
