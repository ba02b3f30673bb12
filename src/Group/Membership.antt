-- ===== src/Group/Membership.antt =====
-- src/daemon/core/gumd-daemon-group.c: the operations on the group files that have no group object of
-- the caller's: taking a user out of all groups, and looking a group up.
pub mod Gone
pub mod Balance
use platform_upstream_gumd.Common.{
  ℕ, suc, ◌||◌, Bool, true, false, Option, none, some, List, [], ◌∷◌, Str, if◌then◌else◌,
}
use platform_upstream_gumd.Error.{Error, Result, ok, err, map_ok, file_write, group_invalid_data}
use platform_upstream_gumd.Database.{Group, Sgrp, stored_group, stored_sgrp}
use platform_upstream_gumd.Validate.{validate_name}
use platform_upstream_gumd.StringUtils.{search_stringv, delete_string}
use platform_upstream_gumd.File.{DbFiles, Io, open_db_files, close_db_files, invalid_id, getgrnam}
use platform_upstream_gumd.World.{
  Os, State, Action, ◌>>=◌, ◌>>◌, exists, lock_db, unlock_db, or_unlock, ticked, pure, fail, gets,
  lift,
}
use platform_upstream_gumd.Group.{GroupObject, new_object, set_gid_property, set_groupname_property}
use platform_upstream_gumd.Group.Fields.{copy_group_data}

-- What is written in place of an entry of the group file.
unfoldable pub leave_group : Str → Group → Group
unfolding search_stringv delete_string
leave_group user gent =
    if search_stringv gent.gr_mem (some user)
    then record gent { gr_mem = delete_string gent.gr_mem (some user) }
    else gent

-- What is written in place of an entry of the gshadow file.
unfoldable pub leave_gshadow : Str → Sgrp → Sgrp
unfolding search_stringv delete_string
leave_gshadow user gsent =
    let is_mem = search_stringv gsent.sg_mem (some user) in
    let is_adm = search_stringv gsent.sg_adm (some user) in
    if is_mem || is_adm
    then record gsent {
      sg_mem = if is_mem then delete_string gsent.sg_mem (some user) else gsent.sg_mem;
      sg_adm = if is_adm then delete_string gsent.sg_adm (some user) else gsent.sg_adm;
    }
    else gsent

module _ {A : Type 0} (stored leave : A → A) where
  -- The loop over the entries, with the number of writes so far.
  unfoldable pub rewrite_entries : (ℕ → A → Bool) → ℕ → List A → Result (List A)
  rewrite_entries put_ok n [] = ok []
  rewrite_entries put_ok n (e ∷ es) =
      let rest = rewrite_entries put_ok (suc n) es in
      if put_ok n (leave e)
      then map_ok (λ written. stored (leave e) ∷ written) rest
      else err file_write

  -- After the loop the copy is deleted, or it takes the place of the file.
  unfoldable pub replace_file : Io A → Result (List A) → DbFiles A → Result (Unit {0}) × DbFiles A
  unfolding close_db_files
  replace_file io (err e) f = (err e, record f { dup = none })
  replace_file io (ok written) f = close_db_files io written f

  -- The outer result is that of opening the files; `retval` after the rest is the inner one.
  unfoldable pub rewrite_file : Io A → DbFiles A → Result (Result (Unit {0})) × DbFiles A
  unfolding open_db_files rewrite_entries replace_file
  rewrite_file io f =
      let (opened, f') = open_db_files io f in
      elim opened [
        | err e ↦ (err e, f')
        | ok entries ↦
            let (r, f'') = replace_file io (rewrite_entries io.put_ok 0 entries) f' in (ok r, f'')
      ]

abbrev pub error_of : Result (Unit {0}) → Option Error
error_of (ok _) = none
error_of (err e) = some e

module _ (os : Os) {O : Type 0} where
  unfoldable pub leave_group_file : Str → Action O (Result (Unit {0}))
  unfolding rewrite_file leave_group
  leave_group_file user s =
      let w = s.world in
      let (r, f) = rewrite_file stored_group (leave_group user) (os.group_io w.calls) w.group in
      (r, record s { world = ticked (record w { group = f }) })

  unfoldable pub leave_gshadow_file : Str → Action O (Result (Unit {0}))
  unfolding rewrite_file leave_gshadow
  leave_gshadow_file user s =
      let w = s.world in
      let (r, f) =
        rewrite_file stored_sgrp (leave_gshadow user) (os.gshadow_io w.calls) w.gshadow in
      (r, record s { world = ticked (record w { gshadow = f }) })

  -- From the group file on; the arguments are the value of `retval` and whether there is a gshadow
  -- file. There, `retval` is assigned anew, while `*error` keeps what the group file has set.
  unfoldable pub leave_shadow : Str → Result (Unit {0}) → Bool → Action O (Option Error)
  leave_shadow user retval false = do or_unlock os (lift retval); unlock_db os; pure none
  leave_shadow user retval true = do
    retval' ← or_unlock os (leave_gshadow_file user)
    or_unlock os (lift retval')
    unlock_db os
    pure (error_of retval)

  -- The value is `*error` where TRUE is returned.
  unfoldable pub delete_user_membership : Option Str → Action O (Option Error)
  unfolding leave_group_file leave_shadow
  delete_user_membership none = fail group_invalid_data
  delete_user_membership (some user) = do
    lift (validate_name (some user))
    lock_db os
    retval ← or_unlock os (leave_group_file user)
    there ← gets (λ s. exists s.world.gshadow)
    leave_shadow user retval there

module _ (os : Os) where
  -- What a constructor that looks a group up gives: the object, or NULL. `s` has the new object.
  unfoldable pub constructed : State GroupObject → Option GroupObject × State GroupObject
  unfolding copy_group_data
  constructed s =
      let (copied, t) = copy_group_data none none s in
      (elim copied [ err e ↦ none | ok _ ↦ some t.self ], (unlock_db os t).1)

  -- A new object in the place of the state's, filled from the entry that it names.
  unfoldable pub construct :
      GroupObject → State GroupObject → Option GroupObject × State GroupObject
  unfolding constructed lock_db
  construct o s =
      let (locked, t) = lock_db os s in
      elim locked [ err e ↦ (none, t) | ok _ ↦ constructed (record t { self = o }) ]

  unfoldable pub new_by_gid : ℕ → State GroupObject → Option GroupObject × State GroupObject
  unfolding construct set_gid_property
  new_by_gid gid s = construct (set_gid_property gid new_object) s

  unfoldable pub new_by_name :
      Option Str → State GroupObject → Option GroupObject × State GroupObject
  unfolding construct set_groupname_property
  new_by_name none s = (none, s)
  new_by_name (some name) s = construct (set_groupname_property (some name) new_object) s

  abbrev gid_of : Option Group → ℕ
  gid_of none = invalid_id
  gid_of (some g) = g.gr_gid

  unfoldable pub get_gid_by_name : {O : Type 0} → Option Str → State O → ℕ × State O
  unfolding lock_db unlock_db getgrnam
  get_gid_by_name none s = (invalid_id, s)
  get_gid_by_name (some name) s =
      let (locked, t) = lock_db os s in
      elim locked [
        | err e ↦ (invalid_id, t)
        | ok _ ↦ (gid_of (getgrnam (some name) t.world.group), (unlock_db os t).1)
      ]
