-- ===== src/Group/Operations.antt =====
-- src/daemon/core/gumd-daemon-group.c: the public operations on a group object.
pub mod Balance
pub mod Frame
pub mod Add
pub mod Valid
pub mod Asked
pub mod Delete
pub mod Members
use platform_upstream_gumd.Common.{
  ℕ, Bool, true, false, not, ◌&&◌, ◌||◌, Option, none, some, List, [], ◌∷◌, Str, codes, strcmp0_eq,
  ◌==◌, if◌then◌else◌,
}
use platform_upstream_gumd.Error.{Result, ok, err}
use platform_upstream_gumd.Error
use platform_upstream_gumd.Database.{Group, Sgrp, Passwd}
use platform_upstream_gumd.StringUtils.{search_stringv, append_string, delete_string}
use platform_upstream_gumd.Crypt.{cmp_secret_eq}
use platform_upstream_gumd.File.{
  OpType, add, delete, modify, invalid_id, getpwuid, find_user_by_gid, getgrnam, getsgnam,
}
use platform_upstream_gumd.World.{
  Config, Os, State, World, Action, pure, fail, gets, lift, ◌>>=◌, ◌>>◌, require, set_self, when,
  lock_db, unlock_db, or_unlock, update_group_file, update_gshadow_file, run_scripts, exists,
  ScriptDir, groupadd_dir, groupdel_dir,
}
use platform_upstream_gumd.Group.{GroupObject, new_object, set_gid_property, set_groupname_property}
use platform_upstream_gumd.Group.Ids.{set_gid}
use platform_upstream_gumd.Group.Entries.{update_daemon_group_entry, update_gshadow_entry}
use platform_upstream_gumd.Group.Fields.{
  set_secret, set_gshadow_data, check_group_type, get_group, copy_gshadow_struct, copy_group_data,
}

module _ (os : Os) (c : Config) where
  -- `gum_file_update` with the two callbacks, on behalf of the object as it is then.
  unfoldable pub update_group : OpType → Option Str → Action GroupObject (Unit {0})
  unfolding update_group_file
  update_group op old s = update_group_file os (update_daemon_group_entry s.self op old) s

  unfoldable pub update_gshadow : OpType → Option Str → Action GroupObject (Unit {0})
  unfolding update_gshadow_file
  update_gshadow op old s = update_gshadow_file os (update_gshadow_entry s.self op old) s

  unfoldable pub run_group_scripts : ScriptDir → Action GroupObject (Unit {0})
  unfolding run_scripts
  run_group_scripts dir s =
      run_scripts
        (record {
          dir = dir;
          name = s.self.group.gr_name;
          id = s.self.group.gr_gid;
          ids = os.getuid ∷ [];
        })
        s

  -- Gives the value of `*gid`.
  unfoldable pub group_add : ℕ → Action GroupObject ℕ
  group_add preferred_gid = do
    check_group_type
    lock_db os
    or_unlock os (set_gid c preferred_gid)
    or_unlock os (set_gshadow_data os c)
    or_unlock os (update_group add none)
    shadow_exists ← gets (λ s. exists s.world.gshadow)
    when shadow_exists (or_unlock os (update_gshadow add none))
    gid ← gets (λ s. s.self.group.gr_gid)
    run_group_scripts groupadd_dir
    unlock_db os
    pure gid

  -- The tail of `gumd_daemon_group_delete`.
  unfoldable pub delete_entries : Action GroupObject (Unit {0})
  delete_entries = do
    run_group_scripts groupdel_dir
    or_unlock os (update_group delete none)
    shadow_exists ← gets (λ s. exists s.world.gshadow)
    when shadow_exists (or_unlock os (update_gshadow delete none))
    unlock_db os

  -- A group that is the primary group of a user stays, and the operation returns TRUE.
  unfoldable pub delete_unless_primary : Option Passwd → Action GroupObject (Unit {0})
  unfolding delete_entries
  delete_unless_primary (some user) = unlock_db os
  delete_unless_primary none = delete_entries

  unfoldable pub group_delete : Action GroupObject (Unit {0})
  group_delete = do
    lock_db os
    gid ← gets (λ s. s.self.group.gr_gid)
    or_unlock os (require (not (gid == invalid_id)) Error.group_not_found)
    or_unlock os (copy_group_data none none)
    gid' ← gets (λ s. s.self.group.gr_gid)
    or_unlock os (require (not (gid' == os.getegid)) Error.group_self_destruction)
    primary ← gets (λ s. find_user_by_gid gid' s.world.passwd)
    delete_unless_primary primary

  abbrev same_secret : Option Str → Option Sgrp → Bool
  same_secret passwd none = false
  same_secret passwd (some gshadow) = cmp_secret_eq os.crypt passwd gshadow.sg_passwd

  -- The object takes what it lacks from the entries; `gr_name` by its property.
  unfoldable pub fill_from : Group → Option Sgrp → GroupObject → GroupObject
  unfolding copy_gshadow_struct set_groupname_property
  fill_from grp gshadow o =
      let o1 = record o { gshadow = copy_gshadow_struct gshadow o.gshadow true } in
      let o2 : GroupObject = elim o1.group.gr_name [
        | none ↦ set_groupname_property grp.gr_name o1
        | some _ ↦ o1
      ] in
      elim o2.group.gr_mem [
        | none ↦ record o2 { group = record (o2.group) { gr_mem = grp.gr_mem } }
        | some _ ↦ o2
      ]

  unfoldable pub group_update : Action GroupObject (Unit {0})
  unfolding fill_from
  group_update = do
    lock_db os
    gid ← gets (λ s. s.self.group.gr_gid)
    or_unlock os (require (not (gid == invalid_id)) Error.group_not_found)
    grp ← or_unlock os (λ s. (get_group s.self s.world.group, s))
    gshadow ← gets (λ s. getsgnam grp.gr_name s.world.gshadow)
    passwd ← gets (λ s. s.self.group.gr_passwd)
    or_unlock os (
        require
          (not (
            strcmp0_eq passwd none
            || strcmp0_eq passwd (some (codes "x"))
            || same_secret passwd gshadow))
          Error.group_no_changes)
    set_self (fill_from grp gshadow)
    or_unlock os (set_secret os c)
    or_unlock os (update_group modify grp.gr_name)
    shadow_exists ← gets (λ s. exists s.world.gshadow)
    when shadow_exists (or_unlock os (update_gshadow modify grp.gr_name))
    unlock_db os

  -- `grp` and `gshadow` are the entries as they were read.
  unfoldable pub with_member : Group → Option Sgrp → Option Str → Bool → GroupObject → GroupObject
  with_member grp gshadow name as_admin o =
      let mem = append_string grp.gr_mem name in
      let adm : Option (List Str) = elim gshadow [
        | none ↦ o.gshadow.sg_adm
        | some sg ↦
            if as_admin && not (search_stringv sg.sg_adm name)
            then append_string sg.sg_adm name
            else o.gshadow.sg_adm
      ] in
      record o {
        group = record (o.group) { gr_mem = mem };
        gshadow = record (o.gshadow) { sg_mem = mem; sg_adm = adm };
      }

  unfoldable pub without_member : Group → Option Sgrp → Option Str → GroupObject → GroupObject
  without_member grp gshadow name o =
      let mem = delete_string grp.gr_mem name in
      let adm : Option (List Str) = elim gshadow [
        | none ↦ o.gshadow.sg_adm
        | some sg ↦
            if search_stringv sg.sg_adm name then delete_string sg.sg_adm name else o.gshadow.sg_adm
      ] in
      record o {
        group = record (o.group) { gr_mem = mem };
        gshadow = record (o.gshadow) { sg_mem = mem; sg_adm = adm };
      }

  abbrev found_or : {A : Type 0} → Option A → Error.Error → Result A
  found_or none e = err e
  found_or (some a) e = ok a

  abbrev pub is_some : {A : Type 0} → Option A → Bool
  is_some none = false
  is_some (some a) = true

  unfoldable pub group_add_member : ℕ → Bool → Action GroupObject (Unit {0})
  unfolding with_member
  group_add_member uid add_as_admin = do
    lock_db os
    pent ← or_unlock os (λ s. (found_or (getpwuid uid s.world.passwd) Error.user_not_found, s))
    grp ← or_unlock os (λ s. (get_group s.self s.world.group, s))
    or_unlock os
        (require (not (search_stringv grp.gr_mem pent.pw_name)) Error.group_user_already_a_member)
    gshadow ← gets (λ s. getsgnam grp.gr_name s.world.gshadow)
    or_unlock os (copy_group_data (some grp) gshadow)
    set_self (with_member grp gshadow pent.pw_name add_as_admin)
    or_unlock os (update_group modify none)
    when (is_some gshadow) (or_unlock os (update_gshadow modify none))
    unlock_db os

  unfoldable pub group_delete_member : ℕ → Action GroupObject (Unit {0})
  unfolding without_member
  group_delete_member uid = do
    lock_db os
    pent ← or_unlock os (λ s. (found_or (getpwuid uid s.world.passwd) Error.user_not_found, s))
    grp ← or_unlock os (λ s. (get_group s.self s.world.group, s))
    or_unlock os (require (search_stringv grp.gr_mem pent.pw_name) Error.user_not_found)
    gshadow ← gets (λ s. getsgnam grp.gr_name s.world.gshadow)
    or_unlock os (copy_group_data (some grp) gshadow)
    set_self (without_member grp gshadow pent.pw_name)
    or_unlock os (update_group modify none)
    shadow_exists ← gets (λ s. exists s.world.gshadow)
    when shadow_exists (or_unlock os (update_gshadow modify none))
    unlock_db os
