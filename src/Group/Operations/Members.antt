-- ===== src/Group/Operations/Members.antt =====
-- The members that the member operations of a group write.
use platform_upstream_gumd.Common.{
  ◌≡◌, refl, Bool, true, false, not, ◌&&◌, ◌||◌, some, Str, strcmp0_eq, strcmp0_eq_iff,
  if◌then◌else◌, Bool-cases, inl, inr, arith,
}
use platform_upstream_gumd.Database.{Group, Sgrp}
use platform_upstream_gumd.StringUtils.{search_stringv}
use platform_upstream_gumd.StringUtils.Members.{
  search_stringv-append_string, search_stringv-delete_string,
}
use platform_upstream_gumd.World.{Config, Os}
use platform_upstream_gumd.Group.{GroupObject}
use platform_upstream_gumd.Group.Operations.{with_member, without_member}

-- The user is among the members, or the administrators.
abbrev pub is_member : GroupObject → Str → Bool
is_member o u = search_stringv o.group.gr_mem (some u)

abbrev pub is_shadow_member : GroupObject → Str → Bool
is_shadow_member o u = search_stringv o.gshadow.sg_mem (some u)

abbrev pub is_admin : GroupObject → Str → Bool
is_admin o u = search_stringv o.gshadow.sg_adm (some u)

abbrev same : Str → Str → Bool
same u name = strcmp0_eq (some u) (some name)

module _ (os : Os) (c : Config) where
  -- The object that `gumd_daemon_group_add_member` writes, for a group with a gshadow entry: the
  -- members in both entries are those of the group entry and the user; and the administrators are
  -- those that the object has been given, or, where the user is to be one and is not yet, those of
  -- the gshadow entry and the user.
  with_member-members :
      (grp : Group) (sg : Sgrp) (name u : Str) (as_admin : Bool) (o : GroupObject)
      → let o' = with_member os c grp (some sg) (some name) as_admin o in
        (is_member o' u ≡ (search_stringv grp.gr_mem (some u) || same u name))
        × (is_shadow_member o' u ≡ is_member o' u)
        × (is_admin o' u ≡ (
            if as_admin && not (search_stringv sg.sg_adm (some name))
            then search_stringv sg.sg_adm (some u) || same u name
            else is_admin o u))
  unfolding with_member
  with_member-members grp sg name u as_admin o = (
    search_stringv-append_string grp.gr_mem name u,
    refl,
    ground (arith, search_stringv-append_string sg.sg_adm name u),
  )

  -- The object that `gumd_daemon_group_delete_member` writes for a member of the group, where the
  -- object has been given the administrators of the gshadow entry: the members in both entries are
  -- those of the group entry but the user, and the administrators are those of the gshadow entry but
  -- the user.
  without_member-members :
      (grp : Group) (sg : Sgrp) (name u : Str) (o : GroupObject)
      → search_stringv grp.gr_mem (some name) ≡ true
      → o.gshadow.sg_adm ≡ sg.sg_adm
      → let o' = without_member os c grp (some sg) (some name) o in
        (is_member o' u ≡ (search_stringv grp.gr_mem (some u) && not (same u name)))
        × (is_shadow_member o' u ≡ is_member o' u)
        × (is_admin o' u ≡ (search_stringv sg.sg_adm (some u) && not (same u name)))
  unfolding without_member
  without_member-members grp sg name u o member given = (
    search_stringv-delete_string grp.gr_mem name u member,
    refl,
    elim (Bool-cases (search_stringv sg.sg_adm (some name))) [
      | inl admin ↦ rw admin (search_stringv-delete_string sg.sg_adm name u admin)
      | inr other ↦ rw (other, given) (no_admin other)
    ],
  )
    where
      no_admin :
          search_stringv sg.sg_adm (some name) ≡ false
          → search_stringv sg.sg_adm (some u)
            ≡ (search_stringv sg.sg_adm (some u) && not (same u name))
      no_admin other = elim (Bool-cases (same u name)) [
        | inl e ↦ let p : some u ≡ some name = (strcmp0_eq_iff _ _).0 e in rw (e, p, other) refl
        | inr e ↦ rw e (ground arith)
      ]
