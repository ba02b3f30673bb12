-- ===== src/Group.antt =====
-- src/daemon/core/gumd-daemon-group.c: the group object of the daemon and its operations on the group
-- and gshadow files. An object is the fields of `GumdDaemonGroupPrivate` but the configuration,
-- which is a parameter. Notifications of changed properties have no part in the model.
pub mod Ids
pub mod Entries
pub mod Fields
pub mod Operations
pub mod Membership
use platform_upstream_gumd.Common.{
  ℕ, Bool, not, ◌&&◌, Option, none, some, Str, strcmp0_eq, ◌==◌, if◌then◌else◌,
}
use platform_upstream_gumd.Error.{succeeds}
use platform_upstream_gumd.Database.{Group, Sgrp}
use platform_upstream_gumd.Validate.{validate_name, validate_db_secret_entry}
use platform_upstream_gumd.File.{invalid_id}

pub record GroupObject : Type 0 where
  -- `GumGroupType`
  pub group_type : ℕ
  pub group : Group
  pub gshadow : Sgrp

abbrev pub grouptype_system : ℕ
grouptype_system = 1

abbrev pub grouptype_user : ℕ
grouptype_user = 2

-- `gumd_daemon_group_init`
abbrev pub new_object : GroupObject
new_object = record {
  group_type = 0;
  group = record { gr_name = none; gr_passwd = none; gr_gid = invalid_id; gr_mem = none };
  gshadow = record { sg_namp = none; sg_passwd = none; sg_adm = none; sg_mem = none };
}

unfoldable pub set_gid_property : ℕ → GroupObject → GroupObject
set_gid_property value o =
    if not (o.group.gr_gid == value)
    then record o { group = record (o.group) { gr_gid = value } }
    else o

unfoldable pub set_grouptype_property : ℕ → GroupObject → GroupObject
set_grouptype_property value o =
    if not (o.group_type == value) then record o { group_type = value } else o

unfoldable pub set_groupname_property : Option Str → GroupObject → GroupObject
set_groupname_property value o =
    if not (strcmp0_eq value o.group.gr_name) && succeeds (validate_name value)
    then record o { group = record (o.group) { gr_name = value } }
    else o

unfoldable pub set_secret_property : Option Str → GroupObject → GroupObject
set_secret_property value o =
    if not (strcmp0_eq value o.group.gr_passwd) && succeeds (validate_db_secret_entry value)
    then record o { group = record (o.group) { gr_passwd = value } }
    else o
