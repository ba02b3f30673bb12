-- ===== src/File.antt =====
-- src/common/gum-file.c: reading a database file, and replacing it by an updated copy. Each database
-- has three paths: the file, its backup `<file>.old` and the copy in work `<file>-tmp.<pid>`; they
-- are taken to be distinct. A path holds the entries that `fget…ent` reads there; `none` is a path
-- with no file, and a file that exists can be read.
pub mod Update
pub mod Entries
pub mod Placement
use platform_upstream_gumd.Common.{
  ℕ, suc, ◌≡◌, Bool, true, false, not, ◌&&◌, Option, none, some, List, [], ◌∷◌, Str, strcmp0_eq,
  ◌==◌, if◌then◌else◌,
}
use platform_upstream_gumd.Error.{
  Error, Result, ok, err, file_open, file_attribute, file_move, file_write,
}
use platform_upstream_gumd.Database.{Group, Sgrp, Passwd, Spwd}

pub record DbFiles (A : Type 0) : Type 0 where
  pub source : Option (List A)
  pub old : Option (List A)
  pub dup : Option (List A)

-- How the system calls of one update turn out: `fopen` of the copy, its Smack label, its attributes,
-- the write number `n` of an entry, `fflush` with `fsync` and `fclose`, `link` and `rename`.
pub record Io (A : Type 0) : Type 0 where
  pub dup_opens : Bool
  pub labelled : Bool
  pub attributes_copied : Bool
  pub put_ok : ℕ → A → Bool
  pub flushed : Bool
  pub linked : Bool
  pub renamed : Bool

-- `GumOpType`
pub data OpType : Type 0 where
  add delete modify : OpType

-- A callback is given the outcomes of its writes and the entries that it reads, and gives what it
-- has written. What it wrote before it failed goes with the copy.
abbrev pub UpdateCb : Type 0 → Type 0
UpdateCb A = (ℕ → A → Bool) → List A → Result (List A)

module _ {A : Type 0} where
  -- The entries of the source file, with the copy open and empty.
  unfoldable pub open_db_files : Io A → DbFiles A → Result (List A) × DbFiles A
  open_db_files io f = elim f.source [
    | none ↦ (err file_open, f)
    | some entries ↦
        if not io.dup_opens
        then (err file_open, f)
        else if not io.labelled
        then (err file_attribute, record f { dup = none })
        else if not io.attributes_copied
        then (err file_attribute, record f { dup = none })
        else (ok entries, record f { dup = some [] })
  ]

  -- The source is linked to the backup's path, where the old backup is deleted first; then the copy
  -- takes the source's place.
  unfoldable pub close_db_files : Io A → List A → DbFiles A → Result (Unit {0}) × DbFiles A
  close_db_files io written f =
      if not io.flushed
      then (err file_write, record f { dup = none })
      else if not io.renamed
      then (err file_move, record f { old = none; dup = none })
      else (
        ok tt,
        record f { source = some written; old = if io.linked then f.source else none; dup = none },
      )

  unfoldable pub update : Io A → Option (UpdateCb A) → DbFiles A → Result (Unit {0}) × DbFiles A
  unfolding open_db_files close_db_files
  update io callback f =
      let (opened, f') = open_db_files io f in
      elim opened [
        | err e ↦ (err e, f')
        | ok entries ↦ elim callback [
          | none ↦ (err file_write, record f' { dup = none })
          | some cb ↦ elim (cb io.put_ok entries) [
            | err e ↦ (err e, record f' { dup = none })
            | ok written ↦ close_db_files io written f'
          ]
        ]
      ]

  -- The loops `while ((ent = fget…ent (fp)) != NULL) { if (test) break; ent = NULL; }`
  unfoldable pub find_entry : (A → Bool) → List A → Option A
  find_entry p [] = none
  find_entry p (e ∷ es) = let rest = find_entry p es in if p e then some e else rest

  abbrev pub find_in : (A → Bool) → DbFiles A → Option A
  find_in p f = elim f.source [ none ↦ none | some es ↦ find_entry p es ]

-- `GUM_USER_INVALID_UID` and `GUM_GROUP_INVALID_GID`: `G_MAXUINT` of 32 bits.
abbrev pub invalid_id : ℕ
invalid_id = 0xffff_ffff

unfoldable pub getpwnam : Option Str → DbFiles Passwd → Option Passwd
unfolding find_entry
getpwnam none f = none
getpwnam (some n) f = find_in (λ p. strcmp0_eq (some n) p.pw_name) f

unfoldable pub getpwuid : ℕ → DbFiles Passwd → Option Passwd
unfolding find_entry
getpwuid uid f = find_in (λ p. uid == p.pw_uid) f

unfoldable pub find_user_by_gid : ℕ → DbFiles Passwd → Option Passwd
unfolding find_entry
find_user_by_gid gid f = if gid == invalid_id then none else find_in (λ p. gid == p.pw_gid) f

unfoldable pub getspnam : Option Str → DbFiles Spwd → Option Spwd
unfolding find_entry
getspnam none f = none
getspnam (some n) f = find_in (λ s. strcmp0_eq (some n) s.sp_namp) f

unfoldable pub getgrnam : Option Str → DbFiles Group → Option Group
unfolding find_entry
getgrnam none f = none
getgrnam (some n) f = find_in (λ g. strcmp0_eq (some n) g.gr_name) f

unfoldable pub getgrgid : ℕ → DbFiles Group → Option Group
unfolding find_entry
getgrgid gid f = find_in (λ g. gid == g.gr_gid) f

unfoldable pub getsgnam : Option Str → DbFiles Sgrp → Option Sgrp
unfolding find_entry
getsgnam none f = none
getsgnam (some n) f = find_in (λ g. strcmp0_eq (some n) g.sg_namp) f
