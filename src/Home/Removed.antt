-- ===== src/Home/Removed.antt =====
-- What is left of a home directory that is deleted.
use platform_upstream_gumd.Common.{
  ℕ, suc, ◌≡◌, refl, ◌∙◌, true, false, Option, none, some, Str, arith,
}
use platform_upstream_gumd.Error.{Result, ok, err}
use platform_upstream_gumd.Home.{
  Attributes, Node, file, dir, Entries, no_entries, entry, HomeIo, Copy, remove_emptied,
  then_remove, delete_node, delete_dir_entries, delete_dir, Homes, deleted, delete_at,
  delete_home_dir,
}
use platform_upstream_gumd.Home.Copied.{Elsewhere, put_home_same, put_home_else}

-- The first tree is the second one with some files and directories taken out.
mutual
  pub data Within : Node → Node → Type 0 where
    same : (t : Node) → Within t t
    below : (a : Attributes) (es fs : Entries) → WithinEntries es fs → Within (dir a es) (dir a fs)

  pub data WithinEntries : Entries → Entries → Type 0 where
    nothing : WithinEntries no_entries no_entries
    taken :
        (name : Str) (t : Node) (es fs : Entries)
        → WithinEntries es fs
        → WithinEntries es (entry name t fs)
    kept :
        (name : Str) (t u : Node) (es fs : Entries)
        → Within t u
        → WithinEntries es fs
        → WithinEntries (entry name t es) (entry name u fs)

-- Deleting either leaves nothing, or fails and leaves a part.
abbrev Left : Node → Copy (Option Node) → Type 0
Left t (true, u, k) = u ≡ none
Left t (false, none, k) = ⊥
Left t (false, some u, k) = Within u t

abbrev LeftEntries : Entries → Copy Entries → Type 0
LeftEntries es (true, fs, k) = fs ≡ no_entries
LeftEntries es (false, fs, k) = WithinEntries fs es

all_same : (es : Entries) → WithinEntries es es
all_same no_entries = nothing
all_same (entry name t es) = kept name t t es es (same t) (all_same es)

all_taken : (es : Entries) → WithinEntries no_entries es
all_taken no_entries = nothing
all_taken (entry name t es) = taken name t no_entries es (all_taken es)

module _ (io : HomeIo) where
  emptied :
      (n : ℕ) (a : Attributes) (es : Entries) (c : Copy Entries)
      → LeftEntries es c
      → Left (dir a es) (remove_emptied io n a c)
  emptied n a es (false, fs, k) h = below a fs es h
  emptied n a es (true, fs, k) h = ground (arith, below a no_entries es (all_taken es))

  removed_rest :
      (name : Str) (t : Node) (es : Entries) (c : Copy (Option Node)) (rest : Copy Entries)
      → Left t c
      → LeftEntries es rest
      → LeftEntries (entry name t es) (then_remove io name c es rest)
  removed_rest name t es (true, u, k) (true, fs, m) h q = ground arith
  removed_rest name t es (true, u, k) (false, fs, m) h q = rw h (taken name t fs es q)
  removed_rest name t es (false, none, k) rest h q = absurd h
  removed_rest name t es (false, some u, k) rest h q = kept name u t es es h (all_same es)

  mutual
    unfolding delete_node

    delete_node-Left : (n : ℕ) (node : Node) → Left node (delete_node io n node)
    delete_node-Left n (file a s) = ground (arith, same (file a s))
    delete_node-Left n (dir a es) = ground (
      arith,
      same (dir a es),
      emptied n a es (delete_dir_entries io (suc n) es) (delete_dir_entries-Left (suc n) es),
    )

    delete_dir_entries-Left : (n : ℕ) (es : Entries) → LeftEntries es (delete_dir_entries io n es)
    delete_dir_entries-Left n no_entries = refl
    delete_dir_entries-Left n (entry name node es) =
        let first = delete_node io n node in
        removed_rest name node es first (delete_dir_entries io first.2 es) (delete_node-Left n node)
          (delete_dir_entries-Left first.2 es)

  delete_dir-Left : (a : Attributes) (es : Entries) → Left (dir a es) (delete_dir io a es)
  unfolding delete_dir
  delete_dir-Left a es = ground (
    arith,
    same (dir a es),
    emptied 0 a es (delete_dir_entries io 1 es) (delete_dir_entries-Left 1 es),
  )

-- What is found at the path before and after a deletion, by its result.
abbrev pub Deleted : Option Node → Result (Unit {0}) → Option Node → Type 0
Deleted before (ok _) after =
    (a : Attributes) × (es : Entries) × (before ≡ some (dir a es)) × (after ≡ none)
Deleted none (err e) after = after ≡ none
Deleted (some t) (err e) none = ⊥
Deleted (some t) (err e) (some u) = Within u t

deleted_at :
    (path : Str) (a : Attributes) (es : Entries) (homes : Homes) (c : Copy (Option Node))
    → Left (dir a es) c
    → let (r, homes') = deleted path c homes in
      Deleted (some (dir a es)) r (homes' path) × Elsewhere path homes homes'
deleted_at path a es homes (true, u, k) h =
    ((a, es, refl, put_home_same path u homes ∙ h), put_home_else path u homes)
deleted_at path a es homes (false, none, k) h = absurd h
deleted_at path a es homes (false, some u, k) h =
    (rw (put_home_same path (some u) homes) h, put_home_else path (some u) homes)

delete_at-Deleted :
    (io : HomeIo) (path : Str) (before : Option Node) (homes : Homes)
    → homes path ≡ before
    → let (r, homes') = delete_at io path before homes in
      Deleted before r (homes' path) × Elsewhere path homes homes'
unfolding delete_at
delete_at-Deleted io path none homes e = (e, λ q n. refl)
delete_at-Deleted io path (some (file a s)) homes e = (rw e (same (file a s)), λ q n. refl)
delete_at-Deleted io path (some (dir a es)) homes e =
    deleted_at path a es homes (delete_dir io a es) (delete_dir-Left io a es)

-- Deleting a home directory changes nothing but what is found at its path. Where TRUE is returned,
-- there was a directory, and nothing is left; where FALSE is returned, what was there is left but for
-- files and directories that have been taken out of it.
pub delete_home_dir-Deleted :
    (io : HomeIo) (path : Str) (homes : Homes)
    → let (r, homes') = delete_home_dir io (some path) homes in
      Deleted (homes path) r (homes' path) × Elsewhere path homes homes'
unfolding delete_home_dir
delete_home_dir-Deleted io path homes = delete_at-Deleted io path (homes path) homes refl
