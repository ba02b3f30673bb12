-- ===== src/Home.antt =====
-- src/common/gum-file.c: the home directory of a user. A directory tree is given by its entries, and
-- all that is no directory is a file with its content. The outcome of each system call is given by
-- the number of the entry that it is made for, in the order in which the entries are gone through; a
-- call that fails is taken to change nothing. The trees are without symbolic links: those of a
-- skeleton would be copied as links, and `chmod` and `chown` then change what they lead to.
pub mod Copied
pub mod Removed
use platform_upstream_gumd.Common.{
  ℕ, suc, Bool, true, false, not, ◌&&◌, Option, none, some, Str, strcmp0_eq, if◌then◌else◌,
}
use platform_upstream_gumd.Error.{
  Error, Result, ok, err, file_attribute, home_dir_create_failure, home_dir_delete_failure,
  home_dir_copy_failure,
}

-- Of `struct stat`; the extended attributes are part of the mode here.
pub record Attributes : Type 0 where
  pub mode : ℕ
  pub uid : ℕ
  pub gid : ℕ

mutual
  pub data Node : Type 0 where
    file : Attributes → Str → Node
    dir : Attributes → Entries → Node

  pub data Entries : Type 0 where
    no_entries : Entries
    entry : Str → Node → Entries → Entries

-- What is found at a path.
abbrev pub Homes : Type 0
Homes = Str → Option Node

-- `fresh` is what a new file or directory is given, for which the caller's umask is used; `parents` is
-- what `g_mkdir_with_parents` leaves at the other paths; `chowned_mode` the mode that `chown` leaves,
-- which clears bits of it, for a directory (true) or a file.
pub record HomeIo : Type 0 where
  pub fresh : ℕ → Attributes
  pub opened : ℕ → Bool
  pub stat_ok : ℕ → Bool
  pub made : ℕ → Bool
  pub labelled : ℕ → Bool
  pub file_copied : ℕ → Bool
  pub attributes_copied : ℕ → Bool
  pub chowned : ℕ → Bool
  pub chowned_mode : Bool → ℕ → ℕ
  pub parents : Str → Homes → Homes
  pub removed : ℕ → Bool

abbrev pub attributes : Node → Attributes
attributes (file a s) = a
attributes (dir a es) = a

abbrev pub set_attributes : Attributes → Node → Node
set_attributes a (file b s) = file a s
set_attributes a (dir b es) = dir a es

abbrev is_directory : Node → Bool
is_directory (file a s) = false
is_directory (dir a es) = true

-- What a call of the copying leaves: whether it went well, what is there, and the next number.
abbrev pub Copy : Type 0 → Type 0
Copy A = Bool × A × ℕ

abbrev pub with_entry : Str → Option Node → Entries → Entries
with_entry name none es = es
with_entry name (some node) es = entry name node es

-- What `chown` leaves.
abbrev pub chown : HomeIo → Bool → ℕ → ℕ → Attributes → Attributes
chown io directory uid gid a = record {
  mode = io.chowned_mode directory a.mode;
  uid = uid;
  gid = gid;
}

-- What `_copy_file_attributes` leaves, which sets the owner after the mode.
abbrev pub copied_attributes : HomeIo → Bool → Attributes → Attributes
copied_attributes io directory from = chown io directory from.uid from.gid from

module _ (io : HomeIo) (uid gid : ℕ) where
  -- `_copy_file_attributes` and `chown` on the entry number `n`.
  unfoldable pub give_attributes : ℕ → Attributes → Copy (Option Node) → Copy (Option Node)
  give_attributes n from (false, t, k) = (false, t, k)
  give_attributes n from (true, none, k) = (false, none, k)
  give_attributes n from (true, some node, k) =
      if not (io.attributes_copied n)
      then (false, some node, k)
      else if not (io.chowned n)
      then (false, some (set_attributes (copied_attributes io (is_directory node) from) node), k)
      else (
        true,
        some (
            set_attributes
              (chown io (is_directory node) uid gid (copied_attributes io (is_directory node) from))
              node),
        k,
      )

  -- A new directory for the entry number `n`, with what has been copied into it; a directory that
  -- cannot be made fails when its attributes are set, if not before.
  abbrev in_new_dir : ℕ → Copy Entries → Copy (Option Node)
  in_new_dir n c =
      if not (io.made n)
      then (false, none, suc n)
      else if not (io.labelled n)
      then (false, some (dir (io.fresh n) no_entries), suc n)
      else if not (io.opened n)
      then (false, some (dir (io.fresh n) no_entries), suc n)
      else (c.0, some (dir (io.fresh n) c.1), c.2)

  abbrev new_file : ℕ → Str → Copy (Option Node)
  new_file n content =
      if not (io.file_copied n)
      then (false, none, suc n)
      else (io.labelled n, some (file (io.fresh n) content), suc n)

  -- What the loop gives, from the first entry and from the rest.
  abbrev then_rest : Str → Copy (Option Node) → Copy Entries → Copy Entries
  then_rest name (false, t, k) rest = (false, with_entry name t no_entries, k)
  then_rest name (true, t, k) rest = (rest.0, with_entry name t rest.1, rest.2)

  unfoldable mutual
    -- The body of the loop of `_copy_dir_recursively`.
    pub copy_node : ℕ → Node → Copy (Option Node)
    copy_node n (file a content) =
        if not (io.stat_ok n)
        then (false, none, suc n)
        else give_attributes n a (new_file n content)
    copy_node n (dir a es) =
        let inner = copy_dir_entries (suc n) es in
        if not (io.stat_ok n)
        then (false, none, suc n)
        else give_attributes n a (in_new_dir n inner)

    -- The loop, into a directory that is empty.
    pub copy_dir_entries : ℕ → Entries → Copy Entries
    copy_dir_entries n no_entries = (true, no_entries, n)
    copy_dir_entries n (entry name node es) =
        let first = copy_node n node in then_rest name first (copy_dir_entries first.2 es)

module _ (io : HomeIo) where
  -- What `g_remove` leaves.
  abbrev remove : ℕ → Node → ℕ → Copy (Option Node)
  remove n node k = if io.removed n then (true, none, k) else (false, some node, k)

  abbrev pub remove_emptied : ℕ → Attributes → Copy Entries → Copy (Option Node)
  remove_emptied n a (false, left, k) = (false, some (dir a left), k)
  remove_emptied n a (true, left, k) = remove n (dir a left) k

  -- What is left of the entries: those from the first failure on.
  abbrev pub then_remove : Str → Copy (Option Node) → Entries → Copy Entries → Copy Entries
  then_remove name (false, t, k) es rest = (false, with_entry name t es, k)
  then_remove name (true, t, k) es rest = (rest.0, with_entry name t rest.1, rest.2)

  unfoldable mutual
    -- The body of the loop of `gum_file_delete_home_dir`, after the names `.` and `..`.
    pub delete_node : ℕ → Node → Copy (Option Node)
    delete_node n (file a content) =
        if not (io.stat_ok n)
        then (false, some (file a content), suc n)
        else remove n (file a content) (suc n)
    delete_node n (dir a es) =
        let emptied = delete_dir_entries (suc n) es in
        if not (io.stat_ok n && io.opened n)
        then (false, some (dir a es), suc n)
        else remove_emptied n a emptied

    -- Its loop.
    pub delete_dir_entries : ℕ → Entries → Copy Entries
    delete_dir_entries n no_entries = (true, no_entries, n)
    delete_dir_entries n (entry name node es) =
        let first = delete_node n node in then_remove name first es (delete_dir_entries first.2 es)

  -- `gum_file_delete_home_dir` on a directory.
  unfoldable pub delete_dir : Attributes → Entries → Copy (Option Node)
  unfolding delete_dir_entries
  delete_dir a es =
      if not (io.opened 0)
      then (false, some (dir a es), 1)
      else remove_emptied 0 a (delete_dir_entries 1 es)

abbrev pub put_home : Str → Option Node → Homes → Homes
put_home path t homes p = if strcmp0_eq (some p) (some path) then t else homes p

module _ (io : HomeIo) (uid gid : ℕ) where
  -- The end of `gum_file_create_home_dir`, with the new directory's attributes and what the copying
  -- of the skeleton gives.
  abbrev filled : Attributes → Copy Entries → Result (Unit {0}) × Node
  filled a (false, es, k) = (err home_dir_copy_failure, dir a es)
  filled a (true, es, k) = (ok tt, dir a es)

  -- `skel` is what is found at the path of the skeleton.
  unfoldable pub fill_home : Option Node → Result (Unit {0}) × Node
  unfolding copy_dir_entries
  fill_home skel =
      let empty = dir (io.fresh 0) no_entries in
      if not (io.labelled 0) then (err file_attribute, empty) else elim skel [
        | none ↦ (err file_attribute, empty)
        | some from ↦
            let given = copied_attributes io true (attributes from) in
            let owned = chown io true uid gid given in
            if not (io.attributes_copied 0)
            then (err file_attribute, empty)
            else if not (io.chowned 0)
            then (err home_dir_create_failure, dir given no_entries)
            else elim from [
              | file a s ↦ (err home_dir_copy_failure, dir owned no_entries)
              | dir a es ↦
                  if not (io.opened 0)
                  then (err home_dir_copy_failure, dir owned no_entries)
                  else filled owned (copy_dir_entries io uid gid 1 es)
            ]
      ]

  -- The third argument is what is found at the path before.
  unfoldable pub create_at : Option Node → Str → Option Node → Homes → Result (Unit {0}) × Homes
  unfolding fill_home
  create_at skel path (some node) homes = (ok tt, homes)
  create_at skel path none homes =
      let (r, home) = fill_home skel in
      if not (io.made 0)
      then (err home_dir_create_failure, io.parents path homes)
      else (r, put_home path (some home) (io.parents path homes))

  unfoldable pub create_home_dir : Option Node → Option Str → Homes → Result (Unit {0}) × Homes
  unfolding create_at
  create_home_dir skel none homes = (err home_dir_create_failure, homes)
  create_home_dir skel (some path) homes = create_at skel path (homes path) homes

abbrev pub deleted : Str → Copy (Option Node) → Homes → Result (Unit {0}) × Homes
deleted path (false, t, k) homes = (err home_dir_delete_failure, put_home path t homes)
deleted path (true, t, k) homes = (ok tt, put_home path t homes)

-- A path with no directory cannot be opened. The third argument is what is found there before.
unfoldable pub delete_at : HomeIo → Str → Option Node → Homes → Result (Unit {0}) × Homes
unfolding delete_dir
delete_at io path none homes = (err home_dir_delete_failure, homes)
delete_at io path (some (file a s)) homes = (err home_dir_delete_failure, homes)
delete_at io path (some (dir a es)) homes = deleted path (delete_dir io a es) homes

unfoldable pub delete_home_dir : HomeIo → Option Str → Homes → Result (Unit {0}) × Homes
unfolding delete_at
delete_home_dir io none homes = (err home_dir_delete_failure, homes)
delete_home_dir io (some path) homes = delete_at io path (homes path) homes
