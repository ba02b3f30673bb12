-- ===== src/Group/Operations/Valid.antt =====
-- The group file stays well-formed when a group is added or deleted.
use platform_upstream_gumd.Common.{
  ℕ, ◌≡◌, sym, ap, ◌∙◌, inl, inr, Bool, false, Option, none, some, List, Str, strcmp0_eq,
  strcmp0_eq_iff, ltb, ◌==◌, arith,
}
use platform_upstream_gumd.Error.{Result, ok, err}
use platform_upstream_gumd.Database.{Group, stored_group}
use platform_upstream_gumd.Validate.{validate_name}
use platform_upstream_gumd.File.{DbFiles, find_in, find_entry, getgrnam, getgrgid}
use platform_upstream_gumd.File.Placement.{Settled, insert_before, remove_first, any}
use platform_upstream_gumd.File.Placement.Distinct.{
  Distinct, insert_before-Distinct, remove_first-Distinct, find_entry-any,
}
use platform_upstream_gumd.World.{Config, Os, State}
use platform_upstream_gumd.World.Post.{Post}
use platform_upstream_gumd.Group.{GroupObject}
use platform_upstream_gumd.Group.Operations.{group_add, group_delete}
use platform_upstream_gumd.Group.Operations.Delete
use platform_upstream_gumd.Group.Operations.Delete.{Removed, Deleted, meant, group_delete-Deleted}
use platform_upstream_gumd.Group.Operations.Add.{Added, Given, Settles, group_add-Added}

abbrev pub same_gid : Group → Group → Bool
same_gid a b = a.gr_gid == b.gr_gid

abbrev pub same_name : Group → Group → Bool
same_name a b = strcmp0_eq a.gr_name b.gr_name

-- No two groups have the same id or the same name.
abbrev pub IsValid : List Group → Type 0
IsValid es = Distinct same_gid es × Distinct same_name es

same_gid_comm : (a b : Group) → same_gid a b ≡ same_gid b a
same_gid_comm a b = ground arith

same_name_comm : (a b : Group) → same_name a b ≡ same_name b a
same_name_comm a b =
    ground (arith, strcmp0_eq_iff a.gr_name b.gr_name, strcmp0_eq_iff b.gr_name a.gr_name)

module _ (f : DbFiles Group) (es : List Group) (file : f.source ≡ some es) where
  find_in-find_entry : (p : Group → Bool) → find_in p f ≡ find_entry p es
  find_in-find_entry p = rw file

  getgrgid-any : (g : Group) → getgrgid g.gr_gid f ≡ none → any (same_gid g) es ≡ false
  unfolding getgrgid
  getgrgid-any g h = find_entry-any (same_gid g) es (sym (find_in-find_entry (same_gid g)) ∙ h)

  getgrnam-any :
      (name : Option Str)
      → validate_name name ≡ ok tt
      → getgrnam name f ≡ none
      → any (λ b. strcmp0_eq name b.gr_name) es ≡ false
  unfolding getgrnam validate_name
  getgrnam-any none v h = absurd (ground arith)
  getgrnam-any (some name) v h =
      find_entry-any (λ b. strcmp0_eq (some name) b.gr_name) es
        (sym (find_in-find_entry (λ b. strcmp0_eq (some name) b.gr_name)) ∙ h)

module _ (os : Os) (c : Config) (s0 : State GroupObject) (es : List Group)
    (file : s0.world.group.source ≡ some es) (settled : Settled stored_group es)
    (valid : IsValid es) where
  -- The group file is there, and well-formed.
  abbrev pub HasValidFile : State GroupObject → Type 0
  HasValidFile t = (fs : List Group) × (t.world.group.source ≡ some fs) × IsValid fs

  Added-HasValidFile : (t : State GroupObject) → Added os c s0 es file settled t → HasValidFile t
  Added-HasValidFile t h =
      let g = stored_group t.self.group in
      let goes_before : Group → Bool = λ e. ltb t.self.group.gr_gid e.gr_gid in
      let names = getgrnam-any s0.world.group es file s0.self.group.gr_name h.1 h.2 in
      (
        insert_before goes_before g es,
        h.4,
        (
          insert_before-Distinct same_gid goes_before g es same_gid_comm
              (getgrgid-any s0.world.group es file t.self.group h.3) valid.0,
          insert_before-Distinct same_name goes_before g es same_name_comm
              (ap (λ n. any (λ b. strcmp0_eq n b.gr_name) es) h.0 ∙ names) valid.1,
        ),
      )

  Settles-HasValidFile :
      (t : State GroupObject) → Settles os c s0 es file settled t → HasValidFile t
  Settles-HasValidFile t (inl same) = (es, same ∙ file, valid)
  Settles-HasValidFile t (inr added) = Added-HasValidFile t added

  weaken :
      (x : Result ℕ × State GroupObject)
      → Post (Given os c s0 es file settled) (Settles os c s0 es file settled) x
      → Post (λ _ t. HasValidFile t) HasValidFile x
  weaken (ok gid, t) h = Added-HasValidFile t h.1
  weaken (err e, t) h = Settles-HasValidFile t h

  -- Where the group file can be read, with its entries as `fgetgrent` gives them, and no two of them
  -- have the same id or the same name, this is so after `gumd_daemon_group_add` too, whatever it
  -- returns.
  pub group_add-IsValid :
      (preferred : ℕ) → Post (λ _ t. HasValidFile t) HasValidFile (group_add os c preferred s0)
  group_add-IsValid preferred =
      weaken (group_add os c preferred s0) (group_add-Added os c s0 es file settled preferred)

  Removed-HasValidFile :
      (t : State GroupObject) → Removed os c s0 es file settled t → HasValidFile t
  Removed-HasValidFile t h = (
    remove_first (meant os c s0 es file settled t) es,
    h.3,
    (remove_first-Distinct same_gid _ es valid.0, remove_first-Distinct same_name _ es valid.1),
  )

  weaken_delete :
      (x : Result (Unit {0}) × State GroupObject)
      → Post (λ _ t. Deleted os c s0 es file settled t) (Delete.Settles os c s0 es file settled) x
      → Post (λ _ t. HasValidFile t) HasValidFile x
  weaken_delete (ok _, t) (inl kept) = (es, kept.0 ∙ file, valid)
  weaken_delete (ok _, t) (inr removed) = Removed-HasValidFile t removed
  weaken_delete (err e, t) (inl same) = (es, same ∙ file, valid)
  weaken_delete (err e, t) (inr removed) = Removed-HasValidFile t removed

  -- Where the group file can be read, with its entries as `fgetgrent` gives them, and no two of them
  -- have the same id or the same name, this is so after `gumd_daemon_group_delete` too, whatever it
  -- returns.
  group_delete-IsValid : Post (λ _ t. HasValidFile t) HasValidFile (group_delete os c s0)
  group_delete-IsValid =
      weaken_delete (group_delete os c s0) (group_delete-Deleted os c s0 es file settled)
