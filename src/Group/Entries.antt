-- ===== src/Group/Entries.antt =====
-- src/daemon/core/gumd-daemon-group.c: the callbacks that rewrite the group and gshadow files.
use platform_upstream_gumd.Common.{false, ◌&&◌, Option, none, some, Str, strcmp0_eq, ltb, ◌==◌}
use platform_upstream_gumd.Error.{file_write, group_already_exists}
use platform_upstream_gumd.Database.{Group, Sgrp, stored_group, stored_sgrp}
use platform_upstream_gumd.File.{OpType, UpdateCb}
use platform_upstream_gumd.File.Entries.{Rules, update_loop}
use platform_upstream_gumd.Group.{GroupObject}

-- `user_data ? user_data : name`
abbrev pub old_name_or : Option Str → Option Str → Option Str
old_name_or none name = name
old_name_or (some old) name = some old

-- The group file is kept in the order of the ids; ADD does not look for duplicates.
unfoldable pub group_rules : GroupObject → Option Str → Rules Group
group_rules o old = record {
  stored = stored_group;
  own = o.group;
  clashes = λ _. false;
  clash_error = file_write;
  goes_before = λ e. ltb o.group.gr_gid e.gr_gid;
  deletes = λ e. o.group.gr_gid == e.gr_gid && strcmp0_eq o.group.gr_name e.gr_name;
  replaces =
      λ e. o.group.gr_gid == e.gr_gid && strcmp0_eq (old_name_or old o.group.gr_name) e.gr_name;
}

unfoldable pub update_daemon_group_entry : GroupObject → OpType → Option Str → UpdateCb Group
unfolding group_rules update_loop
update_daemon_group_entry o op old put_ok entries =
    update_loop (group_rules o old) put_ok op false 0 entries

-- New gshadow entries go to the end.
unfoldable pub gshadow_rules : GroupObject → Option Str → Rules Sgrp
gshadow_rules o old = record {
  stored = stored_sgrp;
  own = o.gshadow;
  clashes = λ e. strcmp0_eq o.gshadow.sg_namp e.sg_namp;
  clash_error = group_already_exists;
  goes_before = λ _. false;
  deletes = λ e. strcmp0_eq o.gshadow.sg_namp e.sg_namp;
  replaces = λ e. strcmp0_eq (old_name_or old o.gshadow.sg_namp) e.sg_namp;
}

unfoldable pub update_gshadow_entry : GroupObject → OpType → Option Str → UpdateCb Sgrp
unfolding gshadow_rules update_loop
update_gshadow_entry o op old put_ok entries =
    update_loop (gshadow_rules o old) put_ok op false 0 entries
