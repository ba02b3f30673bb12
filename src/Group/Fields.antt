-- ===== src/Group/Fields.antt =====
-- src/daemon/core/gumd-daemon-group.c: the fields of the object that the operations fill in.
use platform_upstream_gumd.Common.{
  Bool, true, false, not, ◌&&◌, ◌||◌, Option, none, some, Str, codes, strcmp0_eq, ◌==◌,
  if◌then◌else◌,
}
use platform_upstream_gumd.Error.{Error, Result, ok, err}
use platform_upstream_gumd.Database.{Group, Sgrp}
use platform_upstream_gumd.Crypt.{encrypt_secret}
use platform_upstream_gumd.File.{DbFiles, invalid_id, getgrnam, getgrgid, getsgnam}
use platform_upstream_gumd.World.{Config, Os, Action, gets, ◌>>=◌, ◌>>◌, require, set_self, ticked}
use platform_upstream_gumd.Group.{
  GroupObject, grouptype_system, grouptype_user, set_gid_property, set_groupname_property,
  set_secret_property,
}

-- A secret of "*" or "!" for a group with none, which nothing encrypts to.
unfoldable pub without_secret : GroupObject → GroupObject
without_secret o = record o {
  gshadow = record (o.gshadow) {
    sg_passwd = some (if o.group_type == grouptype_system then codes "*" else codes "!");
  };
  group = record (o.group) { gr_passwd = some (codes "x") };
}

-- The plain text is overwritten by zeros, and then replaced by "x".
unfoldable pub with_secret : Option Str → GroupObject → GroupObject
with_secret enc o = set_secret_property (some (codes "x")) (record o {
  gshadow = record (o.gshadow) { sg_passwd = enc };
  group = record (o.group) { gr_passwd = some (codes "") };
})

-- What the encryption gave is stored, or it has failed.
unfoldable pub store_encrypted : Option Str → Action GroupObject (Unit {0})
store_encrypted none s = (
  err Error.group_secret_encrypt_failure,
  record s {
    self = record (s.self) { gshadow = record (s.self.gshadow) { sg_passwd = none } };
    world = ticked s.world;
  },
)
store_encrypted (some enc) s =
    (ok tt, record s { self = with_secret (some enc) s.self; world = ticked s.world })

-- The second argument is `gr_passwd`.
unfoldable pub encrypt_or_default : Os → Config → Option Str → Action GroupObject (Unit {0})
encrypt_or_default os c none s = (ok tt, record s { self = without_secret s.self })
encrypt_or_default os c (some secret) s =
    store_encrypted (encrypt_secret os.crypt (os.urandom s.world.calls) secret c.encrypt_method) s

unfoldable pub set_secret : Os → Config → Action GroupObject (Unit {0})
unfolding encrypt_or_default
set_secret os c s = encrypt_or_default os c s.self.group.gr_passwd s

unfoldable pub set_gshadow_data : Os → Config → Action GroupObject (Unit {0})
set_gshadow_data os c = do
  set_self (λ o. record o { gshadow = record (o.gshadow) { sg_namp = o.group.gr_name } })
  set_secret os c
  set_self (λ o. record o { gshadow = record (o.gshadow) { sg_mem = o.group.gr_mem } })

unfoldable pub check_group_type : Action GroupObject (Unit {0})
check_group_type s =
    require (s.self.group_type == grouptype_system || s.self.group_type == grouptype_user)
      Error.group_invalid_group_type s

abbrev or_else : {A : Type 0} → Option A → Option A → Option A
or_else none b = b
or_else (some a) b = some a

-- The entry that the object's gid and name, so far as they are set, both belong to.
unfoldable pub get_group : GroupObject → DbFiles Group → Result Group
get_group o f =
    let gid_set = not (o.group.gr_gid == invalid_id) in
    let by_gid = if gid_set then getgrgid o.group.gr_gid f else none in
    elim (or_else by_gid (getgrnam o.group.gr_name f)) [
      | none ↦ err Error.group_not_found
      | some grp ↦
          if gid_set && not (o.group.gr_gid == grp.gr_gid) || elim o.group.gr_name [
            | none ↦ false
            | some name ↦ not (strcmp0_eq (some name) grp.gr_name)
          ]
          then err Error.group_not_found
          else ok grp
    ]

unfoldable pub copy_group_prop : Group → GroupObject → GroupObject
unfolding set_groupname_property set_gid_property set_secret_property
copy_group_prop src o =
    let o' =
      set_secret_property src.gr_passwd
        (set_gid_property src.gr_gid (set_groupname_property src.gr_name o)) in
    record o' { group = record (o'.group) { gr_mem = src.gr_mem } }

abbrev keep_or {ℓ} : {A : Type ℓ} → Bool → Option A → Option A → Option A
keep_or false src dest = src
keep_or true src none = src
keep_or true src (some d) = some d

-- The third argument is `copy_only_if_invalid`.
unfoldable pub copy_gshadow_struct : Option Sgrp → Sgrp → Bool → Sgrp
copy_gshadow_struct none dest only = dest
copy_gshadow_struct (some src) dest only = record {
  sg_namp = keep_or only src.sg_namp dest.sg_namp;
  sg_passwd = keep_or only src.sg_passwd dest.sg_passwd;
  sg_adm = keep_or only src.sg_adm dest.sg_adm;
  sg_mem = keep_or only src.sg_mem dest.sg_mem;
}

-- `_copy_group_data` where both entries are given.
unfoldable pub copy_entries : Group → Option Sgrp → GroupObject → GroupObject
unfolding copy_group_prop copy_gshadow_struct
copy_entries gent sgent o =
    let o' = copy_group_prop gent o in
    record o' { gshadow = copy_gshadow_struct sgent o'.gshadow false }

-- `_copy_group_data`: an entry that is not given is looked up.
unfoldable pub copy_group_data : Option Group → Option Sgrp → Action GroupObject (Unit {0})
copy_group_data gent sgent = do
  gent' ← λ s. elim gent [ none ↦ (get_group s.self s.world.group, s) | some g ↦ (ok g, s) ]
  sgent' ← gets (λ s. or_else sgent (getsgnam gent'.gr_name s.world.gshadow))
  set_self (copy_entries gent' sgent')
