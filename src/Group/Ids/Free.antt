-- ===== src/Group/Ids/Free.antt =====
-- The id that `_find_free_gid` gives, and when it gives none.
use platform_upstream_gumd.Common.{
  ℕ, ◌<◌, ◌≡◌, ◌≢◌, ◌⊎◌, inl, inr, refl, Option, none, some, ltb, ◌==◌, Option-cases, Bool-cases,
  arith,
}
use platform_upstream_gumd.Database.{Group}
use platform_upstream_gumd.File.{DbFiles, invalid_id, getgrgid}
use platform_upstream_gumd.World.{Config}
use platform_upstream_gumd.Ids.{find_in_range}
use platform_upstream_gumd.Ids.Free.{Searched, find_in_range-Searched}
use platform_upstream_gumd.Group.{GroupObject}
use platform_upstream_gumd.Group.Ids.{get_default_gid_range, find_free_gid}

-- The preferred id is one, and no entry of the file has it.
abbrev pub IsUsable : DbFiles Group → ℕ → Type 0
IsUsable f preferred = (preferred ≢ invalid_id) × (getgrgid preferred f ≡ none)

-- What `find_free_gid` promises: the preferred id where that is usable; and where it is not, the first id of
-- the range that no entry of the file has, or none, if the range is improper or wholly in use.
abbrev pub Promised : Config → DbFiles Group → GroupObject → ℕ → Option ℕ → Type 0
Promised c f o preferred r =
    IsUsable f preferred × (r ≡ some preferred)
    ⊎ ((IsUsable f preferred → ⊥) × Searched (λ gid. getgrgid gid f) (get_default_gid_range c o) r)

range-proper :
    (c : Config) (o : GroupObject)
    → let range = get_default_gid_range c o in range.proper ≡ ltb range.min range.max
unfolding get_default_gid_range
range-proper c o = refl

searched :
    (c : Config) (f : DbFiles Group) (o : GroupObject)
    → let range = get_default_gid_range c o in
      range.max < invalid_id
      → Searched (λ gid. getgrgid gid f) range (find_in_range (λ gid. getgrgid gid f) range)
searched c f o small =
    find_in_range-Searched (λ gid. getgrgid gid f) (get_default_gid_range c o) small
      (range-proper c o)

-- With a range whose end is below the largest `gid_t`, the loop ends, and `find_free_gid` keeps what
-- it promises: it gives the preferred id whenever that is set and free, and only else the first free
-- id of the range, and none only if the range is improper or wholly in use.
pub find_free_gid-Promised :
    (c : Config) (f : DbFiles Group) (o : GroupObject) (preferred : ℕ)
    → let range = get_default_gid_range c o in
      range.max < invalid_id → Promised c f o preferred (find_free_gid c f o preferred)
unfolding find_free_gid
find_free_gid-Promised c f o preferred small = elim (Bool-cases (preferred == invalid_id)) [
  | inl e ↦ rw e (inr (λ u. u.0 (ground arith), searched c f o small))
  | inr e ↦ rw e (elim (Option-cases (getgrgid preferred f)) [
    | inl free ↦ rw free (inl ((ground arith, refl), refl))
    | inr (g, used) ↦ rw used (inr (λ u. cc (u.1), searched c f o small))
  ])
]
