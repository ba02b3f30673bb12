-- ===== src/Group/Membership/Gone.antt =====
-- What `gumd_daemon_group_delete_user_membership` leaves in the group and gshadow files.
use platform_upstream_gumd.Common.{
  ℕ, suc, ◌≡◌, refl, sym, ap, ◌∙◌, Bool, true, false, ◌⊎◌, inl, inr, Option, none, some, List, [],
  ◌∷◌, Str, All, strcmp0_eq, if◌then◌else◌, Bool-cases, arith,
}
use platform_upstream_gumd.Error.{Error, Result, ok, err}
use platform_upstream_gumd.Database.{Group, Sgrp, field, stored_group, stored_sgrp}
use platform_upstream_gumd.Validate.{validate_name}
use platform_upstream_gumd.StringUtils.{
  search_from, search_stringv, copy_others, delete_string, strings_of,
}
use mathlib.Core.List.{map}
use platform_upstream_gumd.StringUtils.Members.{delete_string_gone, copy_others_absent}
use platform_upstream_gumd.File.{DbFiles, Io, open_db_files, close_db_files}
use platform_upstream_gumd.World.{
  Os, State, combinators, exists, lock_db, unlock_db, or_unlock, ◌>>=◌, ◌>>◌, lift, pure, gets,
}
use platform_upstream_gumd.World.Post.{Post, Post-bind, Post-or_unlock}
use platform_upstream_gumd.Group.Membership.{
  leave_group, leave_gshadow, rewrite_entries, replace_file, rewrite_file, leave_group_file,
  leave_gshadow_file, leave_shadow, error_of, delete_user_membership,
}

module _ {A : Type 0} (stored leave : A → A) where
  -- All entries, each as it is rewritten.
  pub rewritten : List A → List A
  rewritten [] = []
  rewritten (e ∷ es) = stored (leave e) ∷ rewritten es

  rewrite_entries-rewritten :
      (put_ok : ℕ → A → Bool) (n : ℕ) (es : List A)
      → (rewrite_entries stored leave put_ok n es ≡ ok (rewritten es))
        ⊎ (e : Error) × (rewrite_entries stored leave put_ok n es ≡ err e)
  unfolding rewrite_entries rewritten
  rewrite_entries-rewritten put_ok n [] = inl refl
  rewrite_entries-rewritten put_ok n (e ∷ es) =
      ground (arith, rewrite_entries-rewritten put_ok (suc n) es)

  abbrev pub rewritten_file : Option (List A) → Option (List A)
  rewritten_file none = none
  rewritten_file (some es) = some (rewritten es)

  -- The file is rewritten whole if both results are TRUE, and else unchanged.
  abbrev pub Rewritten : DbFiles A → Result (Result (Unit {0})) × DbFiles A → Type 0
  Rewritten f (ok (ok _), g) = g.source ≡ rewritten_file f.source
  Rewritten f (ok (err e), g) = g.source ≡ f.source
  Rewritten f (err e, g) = g.source ≡ f.source

  replace_file-Rewritten :
      (io : Io A) (es : List A) (f : DbFiles A)
      → f.source ≡ some es
      → Rewritten f (
          let (r, g) =
            replace_file stored leave io (rewrite_entries stored leave io.put_ok 0 es) f in
          (ok r, g))
  unfolding replace_file close_db_files
  replace_file-Rewritten io es f h = ground (arith, rewrite_entries-rewritten io.put_ok 0 es)

  pub rewrite_file-Rewritten :
      (io : Io A) (f : DbFiles A) → Rewritten f (rewrite_file stored leave io f)
  unfolding rewrite_file open_db_files
  rewrite_file-Rewritten io f = go f.source refl
    where
      go : (src : Option (List A)) → f.source ≡ src → Rewritten f (rewrite_file stored leave io f)
      go none h = ground arith
      go (some es) h = ground (arith, replace_file-Rewritten io es (record f { dup = some [] }) h)

-- The names of a vector but the user's.
pub others : Str → List Str → List Str
others user [] = []
others user (s ∷ rest) =
    let rest' = others user rest in if strcmp0_eq (some s) (some user) then rest' else s ∷ rest'

-- A group, as it is read again, whose members are those that the entry has but the user; and likewise the
-- members and the administrators of a gshadow entry.
abbrev pub group_without : Str → Group → Group
group_without user g = record (stored_group g) { gr_mem = some (others user (strings_of g.gr_mem)) }

abbrev pub sgrp_without : Str → Sgrp → Sgrp
sgrp_without user g = record (stored_sgrp g) {
  sg_mem = some (others user (strings_of g.sg_mem));
  sg_adm = some (others user (strings_of g.sg_adm));
}

abbrev pub each_of : {A : Type 0} → (A → A) → Option (List A) → Option (List A)
each_of f none = none
each_of f (some es) = some (map f es)

copy_others-others : (user : Str) (v : List Str) → copy_others v (some user) ≡ others user v
unfolding copy_others others
copy_others-others user [] = refl
copy_others-others user (s ∷ rest) = ground (arith, copy_others-others user rest)

-- What is left of a vector that is changed only where it has the user.
left_others :
    (user : Str) (src : Option (List Str))
    → field (if search_stringv src (some user) then delete_string src (some user) else src)
      ≡ some (others user (strings_of src))
unfolding search_stringv delete_string others
left_others user none = refl
left_others user (some v) = elim (Bool-cases (search_from v user)) [
  | inl h ↦ rw h (ap some (copy_others-others user v))
  | inr h ↦ rw h (ap some (sym (copy_others_absent v user h) ∙ copy_others-others user v))
]

leave_group-group_without :
    (user : Str) (g : Group) → stored_group (leave_group user g) ≡ group_without user g
unfolding leave_group
leave_group-group_without user g = ground (arith, left_others user g.gr_mem)

leave_gshadow-sgrp_without :
    (user : Str) (g : Sgrp) → stored_sgrp (leave_gshadow user g) ≡ sgrp_without user g
unfolding leave_gshadow
leave_gshadow-sgrp_without user g =
    ground (arith, left_others user g.sg_mem, left_others user g.sg_adm)

module _ {A : Type 0} (stored leave f : A → A) (same : (e : A) → stored (leave e) ≡ f e) where
  rewritten-map : (es : List A) → rewritten stored leave es ≡ map f es
  unfolding rewritten
  rewritten-map [] = refl
  rewritten-map (e ∷ es) = cong2 (same e) (rewritten-map es)
    where
      cong2 : {x y : A} {xs ys : List A} → x ≡ y → xs ≡ ys → x ∷ xs ≡ y ∷ ys
      cong2 p q = cc

  pub rewritten_file-each_of :
      (src : Option (List A)) → rewritten_file stored leave src ≡ each_of f src
  rewritten_file-each_of none = refl
  rewritten_file-each_of (some es) = ap some (rewritten-map es)

module _ (os : Os) (user : Str) {O : Type 0} (s0 : State O) where
  -- The group file with the user left out of all groups.
  abbrev pub LeftGroups : State O → Type 0
  LeftGroups t = t.world.group.source ≡ each_of (group_without user) s0.world.group.source

  abbrev pub SameGroups : State O → Type 0
  SameGroups t = t.world.group.source ≡ s0.world.group.source

  abbrev SameShadow : State O → Type 0
  SameShadow t = t.world.gshadow.source ≡ s0.world.gshadow.source

  abbrev pub LeftShadow : State O → Type 0
  LeftShadow t = t.world.gshadow.source ≡ each_of (sgrp_without user) s0.world.gshadow.source

  -- What holds where the group file has been dealt with, by the value of `retval`.
  abbrev Half : Result (Unit {0}) → State O → Type 0
  Half (ok _) t = LeftGroups t × SameShadow t
  Half (err e) t = SameGroups t × SameShadow t

  -- What holds where TRUE is returned, by what `*error` is.
  abbrev pub Left : Option Error → State O → Type 0
  Left none t = (validate_name (some user) ≡ ok tt) × LeftGroups t × LeftShadow t
  Left (some e) t = (validate_name (some user) ≡ ok tt) × SameGroups t × LeftShadow t

  abbrev pub Failed : State O → Type 0
  Failed t = (SameGroups t ⊎ LeftGroups t) × SameShadow t

  unlock-Failed : (t : State O) → Failed t → Failed (unlock_db os t).1
  unfolding unlock_db
  unlock-Failed t h = h

  groups_left :
      rewritten_file stored_group (leave_group user) s0.world.group.source
      ≡ each_of (group_without user) s0.world.group.source
  groups_left = rewritten_file-each_of _ _ _ (leave_group-group_without user) _

  shadow_left :
      rewritten_file stored_sgrp (leave_gshadow user) s0.world.gshadow.source
      ≡ each_of (sgrp_without user) s0.world.gshadow.source
  shadow_left = rewritten_file-each_of _ _ _ (leave_gshadow-sgrp_without user) _

  Half-Failed : (r : Result (Unit {0})) (t : State O) → Half r t → Failed t
  Half-Failed (ok _) t h = (inr h.0, h.1)
  Half-Failed (err e) t h = (inl h.0, h.1)

  leave_group_file-Half :
      (t : State O) → SameGroups t × SameShadow t → Post Half Failed (leave_group_file os user t)
  unfolding leave_group_file
  leave_group_file-Half t h =
      let io = os.group_io t.world.calls in
      ground (
        arith,
        groups_left,
        rewrite_file-Rewritten stored_group (leave_group user) io t.world.group,
      )

  no_shadow : (t : State O) → SameShadow t → exists t.world.gshadow ≡ false → LeftShadow t
  no_shadow t h x = ground arith

  leave_gshadow_file-Done :
      (r : Result (Unit {0})) (t : State O)
      → validate_name (some user) ≡ ok tt
      → Half r t
      → Post
          (λ r' u. Post (λ _ u. Left (error_of r) u) Failed (r', u))
          Failed
          (leave_gshadow_file os user t)
  unfolding leave_gshadow_file
  leave_gshadow_file-Done (ok _) t v h =
      let io = os.gshadow_io t.world.calls in
      ground (
        arith,
        shadow_left,
        rewrite_file-Rewritten stored_sgrp (leave_gshadow user) io t.world.gshadow,
      )
  leave_gshadow_file-Done (err e) t v h =
      let io = os.gshadow_io t.world.calls in
      ground (
        arith,
        shadow_left,
        rewrite_file-Rewritten stored_sgrp (leave_gshadow user) io t.world.gshadow,
      )

  settle :
      (masked : Option Error) (r : Result (Unit {0})) (t : State O)
      → Post (λ _ u. Left masked u) Failed (r, t)
      → Post Left Failed ((or_unlock os (lift r) >>= λ _. unlock_db os >> pure masked) t)
  unfolding or_unlock unlock_db combinators
  settle none (ok _) t h = h
  settle (some e) (ok _) t h = h
  settle masked (err e) t h = h

  leave_shadow-Left :
      (r : Result (Unit {0})) (there : Bool) (t : State O)
      → validate_name (some user) ≡ ok tt
      → exists t.world.gshadow ≡ there
      → Half r t
      → Post Left Failed (leave_shadow os user r there t)
  unfolding leave_shadow
  leave_shadow-Left r true t v x h =
      Post-bind (λ r' u. Post (λ _ u. Left (error_of r) u) Failed (r', u)) Left Failed _ _ t
        (Post-or_unlock os _ Failed _ t (leave_gshadow_file-Done r t v h) unlock-Failed)
        λ r' u. settle (error_of r) r' u
  leave_shadow-Left (ok _) false t v x h = settle none (ok tt) t (v, h.0, no_shadow t h.1 x)
  leave_shadow-Left (err e) false t v x h = settle none (err e) t (Half-Failed (err e) t h)

  at_group_file :
      (t : State O)
      → validate_name (some user) ≡ ok tt
      → SameGroups t × SameShadow t
      → Post Left Failed (
          (or_unlock os (leave_group_file os user) >>= λ r.
          gets (λ s. exists s.world.gshadow) >>= λ there. leave_shadow os user r there)
            t)
  unfolding gets
  at_group_file t v h =
      Post-bind Half Left Failed _ _ t
        (Post-or_unlock os Half Failed _ t (leave_group_file-Half t h) unlock-Failed)
        λ r u q.
          Post-bind (λ there w. (exists w.world.gshadow ≡ there) × Half r w) Left Failed _ _ u
            (refl, q) λ there w p. leave_shadow-Left r there w v p.0 p.1

  abbrev Valid : State O → Type 0
  Valid t = (validate_name (some user) ≡ ok tt) × SameGroups t × SameShadow t

  valid : Post (λ _ t. Valid t) Failed (lift (validate_name (some user)) s0)
  unfolding lift
  valid = ground arith

  locked : (t : State O) → Valid t → Post (λ _ u. Valid u) Failed (lock_db os t)
  unfolding lock_db
  locked t h = ground arith

  -- `gumd_daemon_group_delete_user_membership` of a user. Where it returns TRUE, the name is valid,
  -- every entry of the gshadow file, if there is one, has lost the user as a member and as an
  -- administrator, and nothing else; and so has every entry of the group file as a member, unless an
  -- error is set: then the group file is as it was. Where it returns FALSE, the gshadow file is as it
  -- was, and the group file is so too or has lost the user in this way.
  pub delete_user_membership-Left : Post Left Failed (delete_user_membership os (some user) s0)
  unfolding delete_user_membership
  delete_user_membership-Left =
      Post-bind (λ _ t. Valid t) Left Failed _ _ s0 valid
        λ _ t v.
          Post-bind (λ _ t. Valid t) Left Failed _ _ t (locked t v)
            λ _ u q. at_group_file u q.0 (q.1, q.2)

leave_group_gone :
    (user : Str) (g : Group)
    → search_stringv (stored_group (leave_group user g)).gr_mem (some user) ≡ false
unfolding leave_group
leave_group_gone user g = ground (arith, delete_string_gone g.gr_mem user)

leave_gshadow_gone :
    (user : Str) (g : Sgrp)
    → (search_stringv (stored_sgrp (leave_gshadow user g)).sg_mem (some user) ≡ false)
      × (search_stringv (stored_sgrp (leave_gshadow user g)).sg_adm (some user) ≡ false)
unfolding leave_gshadow
leave_gshadow_gone user g =
    ground (arith, delete_string_gone g.sg_mem user, delete_string_gone g.sg_adm user)

module _ {A : Type 0} (stored leave : A → A) (P : A → Type 0)
    (each : (e : A) → P (stored (leave e))) where
  All-rewritten : (es : List A) → All P (rewritten stored leave es)
  unfolding rewritten
  All-rewritten [] = tt
  All-rewritten (e ∷ es) = (each e, All-rewritten es)

-- In the group file that the operation leaves behind, no group has the user as a member; and in the
-- gshadow file, no group has the user as a member or as an administrator.
leave_gone :
    (user : Str) (groups : List Group) (gshadows : List Sgrp)
    → All
        (λ g. search_stringv g.gr_mem (some user) ≡ false)
        (rewritten stored_group (leave_group user) groups)
      × All
          (λ g.
            (search_stringv g.sg_mem (some user) ≡ false)
            × (search_stringv g.sg_adm (some user) ≡ false))
          (rewritten stored_sgrp (leave_gshadow user) gshadows)
leave_gone user groups gshadows = (
  All-rewritten _ _ _ (leave_group_gone user) groups,
  All-rewritten _ _ _ (leave_gshadow_gone user) gshadows,
)
