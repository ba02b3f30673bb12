-- ===== src/Home/Copied.antt =====
-- What the new home directory of a user holds.
use platform_upstream_gumd.Common.{
  ℕ, suc, ◌≡◌, inl, inr, refl, ◌∙◌, ◌⊎◌, Bool, true, false, Option, none, some, Str, strcmp0_eq,
  Bool-cases, strcmp0_eq_iff, arith,
}
use platform_upstream_gumd.Error.{Result, ok, err}
use platform_upstream_gumd.Home.{
  Attributes, Node, file, dir, Entries, no_entries, entry, HomeIo, Copy, give_attributes, copy_node,
  copy_dir_entries, Homes, put_home, create_home_dir, create_at, fill_home,
}

pub put_home_same : (path : Str) (t : Option Node) (homes : Homes) → put_home path t homes path ≡ t
put_home_same path t homes =
    let e : strcmp0_eq (some path) (some path) ≡ true =
      (strcmp0_eq_iff (some path) (some path)).1 refl in
    rw e refl

pub put_home_else :
    (path : Str) (t : Option Node) (homes : Homes) (q : Str)
    → strcmp0_eq (some q) (some path) ≡ false
    → put_home path t homes q ≡ homes q
put_home_else path t homes q h = rw h refl

abbrev pub Elsewhere : Str → Homes → Homes → Type 0
Elsewhere path homes homes' =
    (q : Str) → strcmp0_eq (some q) (some path) ≡ false → homes' q ≡ homes q

-- What is there elsewhere stays.
abbrev pub Kept : Str → Homes → Homes → Type 0
Kept path homes homes' =
    (q : Str) → strcmp0_eq (some q) (some path) ≡ false → (homes q ≡ none) ⊎ (homes' q ≡ homes q)

module _ (io : HomeIo) (uid gid : ℕ) where
  -- The tree with every file and directory given to the user, its mode as two calls of `chown` leave it,
  -- and all else as it is.
  abbrev given : Bool → Attributes → Attributes
  given directory a = record {
    mode = io.chowned_mode directory (io.chowned_mode directory a.mode);
    uid = uid;
    gid = gid;
  }

  unfoldable mutual
    pub owned : Node → Node
    owned (file a s) = file (given false a) s
    owned (dir a es) = dir (given true a) (owned_entries es)

    pub owned_entries : Entries → Entries
    owned_entries no_entries = no_entries
    owned_entries (entry name node es) = entry name (owned node) (owned_entries es)

  -- Copying either fails or gives the tree of the user.
  abbrev Owned : {A : Type 0} → A → Copy A → Type 0
  Owned t (false, u, k) = Unit
  Owned t (true, u, k) = u ≡ t

  mutual
    unfolding copy_node owned give_attributes

    copy_node-Owned :
        (n : ℕ) (node : Node) → Owned (some (owned node)) (copy_node io uid gid n node)
    copy_node-Owned n (file a s) = ground arith
    copy_node-Owned n (dir a es) = ground (arith, copy_dir_entries-Owned (suc n) es)

    copy_dir_entries-Owned :
        (n : ℕ) (es : Entries) → Owned (owned_entries es) (copy_dir_entries io uid gid n es)
    copy_dir_entries-Owned n no_entries = refl
    copy_dir_entries-Owned n (entry name node es) =
        ground
          (arith, copy_node-Owned n node, copy_dir_entries-Owned (copy_node io uid gid n node).2 es)

  -- What is found at the path afterwards, by what was there and what is found at that of the skeleton.
  abbrev pub Created : Option Node → Option Node → Result (Unit {0}) → Option Node → Type 0
  Created before skel (err e) after = Unit
  Created (some node) skel (ok _) after = after ≡ some node
  Created none skel (ok _) after =
      (a : Attributes) × (es : Entries) × (skel ≡ some (dir a es))
      × (after ≡ some (owned (dir a es)))

  filled :
      (skel : Option Node)
      → let (r, home) = fill_home io uid gid skel in Created none skel r (some home)
  unfolding fill_home owned
  filled none = ground arith
  filled (some (file a s)) = ground arith
  filled (some (dir a es)) = ground (arith, copy_dir_entries-Owned 1 es)

  put_filled :
      (path : Str) (homes : Homes) (skel : Option Node) (x : Result (Unit {0}) × Node)
      → Created none skel x.0 (some x.1)
      → Created none skel x.0 (put_home path (some x.1) homes path)
        × Elsewhere path homes (put_home path (some x.1) homes)
  put_filled path homes skel x h =
      (rw (put_home_same path (some x.1) homes) h, put_home_else path (some x.1) homes)

  -- What is there before the directory itself is made.
  abbrev prepared : Option Node → Str → Homes → Homes
  prepared none path homes = io.parents path homes
  prepared (some node) path homes = homes

  created_at :
      (skel before : Option Node) (path : Str) (homes : Homes)
      → homes path ≡ before
      → let (r, homes') = create_at io uid gid skel path before homes in
        Created before skel r (homes' path) × Elsewhere path (prepared before path homes) homes'
  unfolding create_at
  created_at skel (some node) path homes h = (h, λ q e. refl)
  created_at skel none path homes h = elim (Bool-cases (io.made 0)) [
    | inl m ↦
        rw m
          (put_filled path (io.parents path homes) skel (fill_home io uid gid skel) (filled skel))
    | inr m ↦ rw m (tt, λ q e. refl)
  ]

  -- `g_mkdir_with_parents` makes directories where there is nothing.
  module _
      (parents_keep : (path : Str) (homes : Homes) (q : Str)
        → (homes q ≡ none) ⊎ (io.parents path homes q ≡ homes q)) where
    prepared-Kept :
        (before : Option Node) (path : Str) (homes : Homes) (q : Str)
        → (homes q ≡ none) ⊎ (prepared before path homes q ≡ homes q)
    prepared-Kept none path homes q = parents_keep path homes q
    prepared-Kept (some node) path homes q = inr refl

    -- Creating a home directory leaves what is there elsewhere, where `g_mkdir_with_parents` leaves what
    -- is there. What was at the path stays if anything was; else, where TRUE is returned, the skeleton
    -- is a directory, and its whole tree is there with the user as the owner of every file, and with
    -- the skeleton's modes as `chown` leaves them. A skeleton holds no symbolic links here.
    pub create_home_dir-Created :
        (skel : Option Node) (path : Str) (homes : Homes)
        → let (r, homes') = create_home_dir io uid gid skel (some path) homes in
          Created (homes path) skel r (homes' path) × Kept path homes homes'
    unfolding create_home_dir
    create_home_dir-Created skel path homes =
        let (there, elsewhere) = created_at skel (homes path) path homes refl in
        (
          there,
          λ q e. elim (prepared-Kept (homes path) path homes q) [
            | inl n ↦ inl n
            | inr k ↦ inr (elsewhere q e ∙ k)
          ],
        )
