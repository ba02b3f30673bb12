-- ===== src/Group/Operations/Asked.antt =====
-- The id and the name of a group object that is filled from the entry that belongs to it.
use platform_upstream_gumd.Common.{
  ◌≡◌, ◌≢◌, ◌⊎◌, inl, inr, refl, Option, none, strcmp0_eq_iff, arith,
}
use platform_upstream_gumd.Error.{Error, Result, ok, err}
use platform_upstream_gumd.Database.{Group, Sgrp}
use platform_upstream_gumd.File.{DbFiles, invalid_id}
use platform_upstream_gumd.World.{State, combinators}
use platform_upstream_gumd.World.Post.{Post}
use platform_upstream_gumd.Group.{
  GroupObject, set_gid_property, set_groupname_property, set_secret_property,
}
use platform_upstream_gumd.Group.Fields.{get_group, copy_group_prop, copy_entries, copy_group_data}

-- The object has the id of the one before, and the name, if that had one.
abbrev pub Asked : GroupObject → GroupObject → Type 0
Asked before o =
    (o.group.gr_gid ≡ before.group.gr_gid)
    × ((before.group.gr_name ≡ none) ⊎ (o.group.gr_name ≡ before.group.gr_name))

-- The entry has it.
abbrev Fits : GroupObject → Group → Type 0
Fits before g =
    (g.gr_gid ≡ before.group.gr_gid)
    × ((before.group.gr_name ≡ none) ⊎ (g.gr_name ≡ before.group.gr_name))

copy_entries-Asked :
    (g : Group) (shadow : Option Sgrp) (o : GroupObject)
    → Fits o g
    → Asked o (copy_entries g shadow o)
unfolding copy_entries copy_group_prop set_gid_property set_groupname_property set_secret_property
copy_entries-Asked g shadow o h = ground arith

-- The entry that is found has the id and the name of the object, if they are set.
get_group-Fits :
    (o : GroupObject) (f : DbFiles Group) (g : Group)
    → o.group.gr_gid ≢ invalid_id
    → get_group o f ≡ ok g
    → Fits o g
unfolding get_group
get_group-Fits o f g u e = ground (arith, strcmp0_eq_iff o.group.gr_name g.gr_name)

Result-cases : (r : Result Group) → ((g : Group) × (r ≡ ok g)) ⊎ ((e : Error) × (r ≡ err e))
Result-cases (ok g) = inl (g, refl)
Result-cases (err e) = inr (e, refl)

pub copy_group_data-Asked :
    (s : State GroupObject)
    → s.self.group.gr_gid ≢ invalid_id
    → Post
        (λ _ t. (t.world ≡ s.world) × Asked s.self t.self)
        (λ t. t.world ≡ s.world)
        (copy_group_data none none s)
unfolding copy_group_data combinators
copy_group_data-Asked s u = elim (Result-cases (get_group s.self s.world.group)) [
  | inl (g, e) ↦
      rw e (refl, copy_entries-Asked g _ s.self (get_group-Fits s.self s.world.group g u e))
  | inr (x, e) ↦ rw e refl
]
