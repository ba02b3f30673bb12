-- ===== src/Group/Ids.antt =====
-- src/daemon/core/gumd-daemon-group.c: the choice of a group id.
pub mod Free
use platform_upstream_gumd.Common.{ℕ, not, Option, none, some, ltb, ◌==◌, if◌then◌else◌}
use platform_upstream_gumd.Ids.{Range, find_in_range}
use platform_upstream_gumd.Error
use platform_upstream_gumd.Database.{Group}
use platform_upstream_gumd.Validate.{validate_name}
use platform_upstream_gumd.File.{DbFiles, invalid_id, getgrnam, getgrgid}
use platform_upstream_gumd.World.{Config, get_uint, Action}
use platform_upstream_gumd.Group.{GroupObject, grouptype_system, set_gid_property}

unfoldable pub get_default_gid_range : Config → GroupObject → Range
get_default_gid_range c o =
    let system = o.group_type == grouptype_system in
    let lo = if system then get_uint c.sys_gid_min invalid_id else get_uint c.gid_min invalid_id in
    let hi = if system then get_uint c.sys_gid_max invalid_id else get_uint c.gid_max invalid_id in
    record { min = lo; max = hi; proper = ltb lo hi }

unfoldable pub find_free_gid : Config → DbFiles Group → GroupObject → ℕ → Option ℕ
unfolding get_default_gid_range find_in_range
find_free_gid c f o preferred =
    let default = find_in_range (λ gid. getgrgid gid f) (get_default_gid_range c o) in
    if not (preferred == invalid_id)
    then elim (getgrgid preferred f) [ none ↦ some preferred | some _ ↦ default ]
    else default

unfoldable pub set_gid : Config → ℕ → Action GroupObject (Unit {0})
unfolding set_gid_property
set_gid c preferred s =
    let name = s.self.group.gr_name in
    elim (validate_name name) [
      | Error.err e ↦ (Error.err e, s)
      | Error.ok _ ↦ elim (getgrnam name s.world.group) [
        | some _ ↦ (Error.err Error.group_already_exists, s)
        | none ↦ elim (find_free_gid c s.world.group s.self preferred) [
          | none ↦ (Error.err Error.group_gid_not_available, s)
          | some gid ↦ (Error.ok tt, record s { self = set_gid_property gid s.self })
        ]
      ]
    ]
