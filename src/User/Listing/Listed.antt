-- ===== src/User/Listing/Listed.antt =====
-- Which users are listed.
use Prim.Native.Nat.{bit_and, bit_and-bitwise}
use platform_upstream_gumd.Common.{
  ℕ, ◌≡◌, ◌⊎◌, ◌<◌, Bool, true, false, ◌&&◌, Option, none, some, codes, leb, if◌then◌else◌, List,
  ◌∷◌, Str, ◌==◌, arith,
}
use platform_upstream_gumd.Database.{Passwd}
use platform_upstream_gumd.StringUtils.{Strv}
use platform_upstream_gumd.File.{invalid_id}
use platform_upstream_gumd.File.Placement.{any}
use platform_upstream_gumd.UserTypes.{usertype_none, usertype_system, type_from_string}
use platform_upstream_gumd.User.Listing.Asked.{is_type, among, asked_names}
use platform_upstream_gumd.World.{Config, Os, State, get_uint}
use platform_upstream_gumd.World.Locking.{count}
use platform_upstream_gumd.World.Post.{Post}
use platform_upstream_gumd.User.{usertype, gecos_string, usertype_from_gecos}
use platform_upstream_gumd.User.Listing.{listed_type, list_users}

bit_and_none : (t : ℕ) → bit_and usertype_none t ≡ 0
bit_and_none t = λ i. bit_and-bitwise 0 t i

module _ (glib : Strv) (c : Config) where
  -- The name of a user's type: that in gecos, if it names one, else `system` for an id in the range of
  -- the system users, and none for any other.
  abbrev in_range : ℕ → Bool
  in_range uid =
      leb (get_uint c.sys_uid_min invalid_id) uid && leb uid (get_uint c.sys_uid_max invalid_id)

  abbrev unnamed_type : ℕ → Option Str
  unnamed_type uid = if in_range uid then some (codes "system") else none

  abbrev named : ℕ → Option Str → Option Str
  named uid none = unnamed_type uid
  named uid (some s) = if is_type s then some s else unnamed_type uid

  abbrev gecos_type : Option Str → Option Str
  gecos_type none = none
  gecos_type (some g) = gecos_string glib (some g) usertype

  abbrev pub type_name : Passwd → Option Str
  type_name pent = named pent.pw_uid (gecos_type pent.pw_gecos)

  abbrev number : Option Str → ℕ
  number none = usertype_none
  number (some n) = type_from_string (some n)

  -- A user that has one of the types that are asked for.
  abbrev wanted : Option (List Str) → Option Str → Bool
  wanted types none = false
  wanted types (some n) = among n (asked_names types)

  abbrev pub matching : Option (List Str) → ℕ → Passwd → Bool
  matching types uid pent = wanted types (type_name pent) && pent.pw_uid == uid

  -- The number of a type that has a name.
  abbrev numbered : ℕ → ℕ → ℕ
  numbered uid ut =
      if ut == usertype_none
        && leb (get_uint c.sys_uid_min invalid_id) uid
        && leb uid (get_uint c.sys_uid_max invalid_id)
      then usertype_system
      else ut

  IsNamed : Option Str → Type 0
  IsNamed none = Unit
  IsNamed (some n) = is_type n ≡ true

  module _ {O : Type 0} (os : Os) (types : Option (List Str)) (uid : ℕ) (s0 : State O)
      (es : List Passwd) (file : s0.world.passwd.source ≡ some es) where
    abbrev pub Listed : List ℕ → State O → Type 0
    Listed uids t =
        (any (λ u. u == uid) uids ≡ any (matching types uid) es)
        × (count t ≡ count s0)
        × (t.world.passwd ≡ s0.world.passwd)

    abbrev pub Balanced : State O → Type 0
    Balanced t = (count t ≡ count s0) × (t.world.passwd ≡ s0.world.passwd)

-- A user that has no type in gecos, and an id outside the range of the system users, is never listed,
-- whatever types are asked for.
list_users_untyped :
    (glib : Strv) (c : Config) (in_types : ℕ) (pent : Passwd) (es : List Passwd)
    → usertype_from_gecos glib pent.pw_gecos ≡ usertype_none
    → (pent.pw_uid < get_uint c.sys_uid_min invalid_id)
      ⊎ (get_uint c.sys_uid_max invalid_id < pent.pw_uid)
    → list_users glib c in_types (pent ∷ es) ≡ list_users glib c in_types es
unfolding list_users listed_type
list_users_untyped glib c in_types pent es none_set outside = ground (arith, bit_and_none in_types)
