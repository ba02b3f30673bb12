-- ===== src/Database.antt =====
-- The entries of the four database files: `struct group`, `struct sgrp`, `struct passwd` and
-- `struct spwd` of libc, with the pointers that may be NULL as options. `stored_…` is what a later
-- `fget…ent` reads where `put…ent` has written the entry: a NULL field is written as an empty one.
use platform_upstream_gumd.Common.{ℕ, Option, none, some, List, [], Str}
use platform_upstream_gumd.Common.Int.{ℤ}

pub record Group : Type 0 where
  pub gr_name : Option Str
  pub gr_passwd : Option Str
  pub gr_gid : ℕ
  pub gr_mem : Option (List Str)

pub record Sgrp : Type 0 where
  pub sg_namp : Option Str
  pub sg_passwd : Option Str
  pub sg_adm : Option (List Str)
  pub sg_mem : Option (List Str)

pub record Passwd : Type 0 where
  pub pw_name : Option Str
  pub pw_passwd : Option Str
  pub pw_uid : ℕ
  pub pw_gid : ℕ
  pub pw_gecos : Option Str
  pub pw_dir : Option Str
  pub pw_shell : Option Str

pub record Spwd : Type 0 where
  pub sp_namp : Option Str
  pub sp_pwdp : Option Str
  pub sp_lstchg : ℤ
  pub sp_min : ℤ
  pub sp_max : ℤ
  pub sp_warn : ℤ
  pub sp_inact : ℤ
  pub sp_expire : ℤ
  pub sp_flag : ℤ

-- A NULL string is written as an empty field, and a NULL vector as an empty list.
abbrev pub field {ℓ} : {A : Type ℓ} → Option (List A) → Option (List A)
field none = some []
field (some s) = some s

abbrev pub stored_group : Group → Group
stored_group g = record g { gr_passwd = field g.gr_passwd; gr_mem = field g.gr_mem }

abbrev pub stored_sgrp : Sgrp → Sgrp
stored_sgrp g = record g {
  sg_passwd = field g.sg_passwd;
  sg_adm = field g.sg_adm;
  sg_mem = field g.sg_mem;
}

abbrev pub stored_passwd : Passwd → Passwd
stored_passwd p = record p {
  pw_passwd = field p.pw_passwd;
  pw_gecos = field p.pw_gecos;
  pw_dir = field p.pw_dir;
  pw_shell = field p.pw_shell;
}

abbrev pub stored_spwd : Spwd → Spwd
stored_spwd s = record s { sp_pwdp = field s.sp_pwdp }
