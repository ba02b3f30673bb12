-- ===== src/Tests/Groups.antt =====
-- The operations on groups in a concrete system.
use platform_upstream_gumd.Common.{
  ◌≡◌, refl, true, false, Option, none, some, [], ◌∷◌, ◌++◌, Str, str_eq, strcmp0_eq, codes,
  if◌then◌else◌, ◌%◌, ◌<◌, arith,
}
use platform_upstream_gumd.Database.{Sgrp}
use platform_upstream_gumd.File.{invalid_id}
use platform_upstream_gumd.Home.{HomeIo, Homes, Node, file, dir, entry, no_entries}
use platform_upstream_gumd.World.{Config, Os, World, State}
use platform_upstream_gumd.World.Locking.{count}
use platform_upstream_gumd.World.Post.{Post}
use platform_upstream_gumd.Group.{GroupObject, new_object}
use platform_upstream_gumd.Group.Ids.{get_default_gid_range, find_free_gid}
use platform_upstream_gumd.Group.Ids.Free.{Promised, find_free_gid-Promised}
use platform_upstream_gumd.File.Placement.{any}
use platform_upstream_gumd.Group.Operations.{group_add, group_delete}
use platform_upstream_gumd.Group.Operations.Valid.{IsValid, HasValidFile, group_add-IsValid}
use platform_upstream_gumd.Group.Operations.Delete
use platform_upstream_gumd.Group.Operations.Delete.{Deleted, group_delete-Deleted}
use platform_upstream_gumd.Group.Operations.Add.{Given, Settles, group_add-Added}
use platform_upstream_gumd.Group.Operations.Balance.{perform, adds_member, perform-count}
use platform_upstream_gumd.Group.Membership.{delete_user_membership}
use platform_upstream_gumd.Group.Membership.Gone.{Left, Failed, delete_user_membership-Left}
use platform_upstream_gumd.Tests.Files.{io, root, users, group_file}

abbrev pub config : Config
config = record {
  sys_gid_min = some 100;
  sys_gid_max = some 499;
  gid_min = some 5000;
  gid_max = some 5999;
  sys_uid_min = some 100;
  sys_uid_max = some 499;
  sec_uid_min = some 500;
  sec_uid_max = some 999;
  uid_min = some 5000;
  uid_max = some 5999;
  encrypt_method = some (codes "SHA512");
  shell = some (codes "/bin/sh");
  sec_shell = some (codes "/bin/false");
  home_dir_pref = codes "/home";
  usr_primary_grpname = none;
  def_usr_groups = some (codes "users");
  def_admin_groups = some (codes "users");
  pass_min_days = none;
  pass_max_days = none;
  pass_warn_age = none;
  userinfo_dir = some (codes "/etc/gum/");
}

abbrev pub toy_crypt : Str → Str → Option Str
toy_crypt plain salt = some (salt ++ b'$' ∷ plain)

-- `/home` is made where it is missing.
abbrev pub made_at : Str → Option Node → Option Node
made_at q (some node) = some node
made_at q none =
    if str_eq q (codes "/home")
    then some (dir (record { mode = 448; uid = 0; gid = 0 }) no_entries)
    else none

abbrev pub home_made : Str → Homes → Homes
home_made path homes q = made_at q (homes q)

abbrev pub home_io : HomeIo
home_io = record {
  fresh = λ _. record { mode = 448; uid = 0; gid = 0 };
  opened = λ _. true;
  stat_ok = λ _. true;
  made = λ _. true;
  labelled = λ _. true;
  file_copied = λ _. true;
  attributes_copied = λ _. true;
  chowned = λ _. true;
  chowned_mode = λ directory mode. if directory then mode else mode % 2048;
  parents = home_made;
  removed = λ _. true;
}

-- A skeleton with one file.
abbrev pub skel : Node
skel =
    dir (record { mode = 493; uid = 0; gid = 0 })
      (entry (codes ".profile") (file (record { mode = 420; uid = 0; gid = 0 }) (codes "umask"))
        no_entries)

abbrev pub os : Os
os = record {
  lckpwdf_ok = λ _. true;
  ulckpwdf_ok = λ _. true;
  group_io = λ _. io;
  gshadow_io = λ _. io;
  passwd_io = λ _. io;
  shadow_io = λ _. io;
  urandom = λ _. some (codes "0123456789abcdef");
  crypt = toy_crypt;
  getuid = 0;
  geteuid = 0;
  getegid = 0;
  today = λ _. 16000;
  md5 = λ _. codes "0123456789abcdef0123456789abcdef";
  login = λ _. record {
    connected = true;
    proxied = true;
    sessions = some (5000 ∷ []);
    terminated = false;
    sessions_after = some [];
  };
  home_io = λ _. home_io;
  userinfo_saved = λ _. true;
}

abbrev pub sgrp : Sgrp
sgrp = record {
  sg_namp = some (codes "users");
  sg_passwd = some (codes "!");
  sg_adm = some (codes "alice" ∷ []);
  sg_mem = some (codes "alice" ∷ []);
}

abbrev pub world : World
world = record {
  lock = record { count = 0; held = false; privileged = false };
  group = group_file;
  gshadow = record { source = some (sgrp ∷ []); old = none; dup = none };
  passwd = record { source = some []; old = none; dup = none };
  shadow = record { source = some []; old = none; dup = none };
  scripts = [];
  user_scripts = [];
  userinfo = λ _. none;
  homes = λ _. none;
  skel = some skel;
  calls = 0;
}

-- A user group `devs` that is not there yet.
abbrev devs : GroupObject
devs = record new_object {
  group_type = 2;
  group = record {
    gr_name = some (codes "devs");
    gr_passwd = none;
    gr_gid = invalid_id;
    gr_mem = none;
  };
}

abbrev start : State GroupObject
start = record { self = devs; world = world }

group_add-Added_example :
    Post
      (Given os config start (root ∷ users ∷ []) refl (refl, (refl, tt)))
      (Settles os config start (root ∷ users ∷ []) refl (refl, (refl, tt)))
      (group_add os config 70 start)
group_add-Added_example =
    group_add-Added os config start (root ∷ users ∷ []) refl (refl, (refl, tt)) 70

perform-count_example : count (perform os config (adds_member 5000 true) start) ≡ count start
perform-count_example = perform-count os config (adds_member 5000 true) start

range_small : (get_default_gid_range config devs).max < invalid_id
unfolding get_default_gid_range
range_small = ground arith

find_free_gid-Promised_example :
    Promised config group_file devs 100 (find_free_gid config group_file devs 100)
find_free_gid-Promised_example = find_free_gid-Promised config group_file devs 100 range_small

delete_user_membership-Left_example :
    Post
      (Left os (codes "alice") start)
      (Failed os (codes "alice") start)
      (delete_user_membership os (some (codes "alice")) start)
delete_user_membership-Left_example = delete_user_membership-Left os (codes "alice") start

valid : IsValid (root ∷ users ∷ [])
unfolding any strcmp0_eq
valid = ((refl, (refl, tt)), (refl, (refl, tt)))

group_add-IsValid_example :
    Post
      (λ _ t. HasValidFile os config start (root ∷ users ∷ []) refl (refl, (refl, tt)) valid t)
      (HasValidFile os config start (root ∷ users ∷ []) refl (refl, (refl, tt)) valid)
      (group_add os config 70 start)
group_add-IsValid_example =
    group_add-IsValid os config start (root ∷ users ∷ []) refl (refl, (refl, tt)) valid 70

-- An object that stands for the group `users`.
abbrev to_delete : State GroupObject
to_delete = record { self = record new_object { group = users }; world = world }

group_delete-Deleted_example :
    Post
      (λ _ t. Deleted os config to_delete (root ∷ users ∷ []) refl (refl, (refl, tt)) t)
      (Delete.Settles os config to_delete (root ∷ users ∷ []) refl (refl, (refl, tt)))
      (group_delete os config to_delete)
group_delete-Deleted_example =
    group_delete-Deleted os config to_delete (root ∷ users ∷ []) refl (refl, (refl, tt))

abbrev bob : Str
bob = codes "bob"
