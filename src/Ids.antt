-- ===== src/Ids.antt =====
-- The search for a free id of `_find_free_gid` in src/daemon/core/gumd-daemon-group.c and of
-- `_find_free_uid` in src/daemon/core/gumd-daemon-user.c, which differ in the lookup.
pub mod Free
use platform_upstream_gumd.Common.{
  ℕ, zero, suc, ◌+◌, ◌-◌, ◌%◌, Bool, not, Option, none, some, leb, if◌then◌else◌,
}

-- The two values, and `*min < *max`.
pub record Range : Type 0 where
  pub min : ℕ
  pub max : ℕ
  pub proper : Bool

pub data Scan : Type 0 where
  found : ℕ → Scan
  all_used out_of_fuel : Scan

abbrev pub u32_mod : ℕ
u32_mod = 0x1_0000_0000

module _ {A : Type 0} (lookup : ℕ → Option A) where
  -- The loop `while (tmp_gid <= gid_max)`; `gid_t` and `uid_t` are unsigned of 32 bits.
  unfoldable pub scan_ids : ℕ → ℕ → ℕ → Scan
  scan_ids max zero tmp = out_of_fuel
  scan_ids max (suc fuel) tmp =
      let rest = scan_ids max fuel ((tmp + 1) % u32_mod) in
      if leb tmp max then elim (lookup tmp) [ none ↦ found tmp | some _ ↦ rest ] else all_used

abbrev pub scanned : Scan → Option ℕ
scanned (found id) = some id
scanned _ = none

-- From the default range to the result of the loop.
unfoldable pub find_in_range : {A : Type 0} → (ℕ → Option A) → Range → Option ℕ
unfolding scan_ids
find_in_range lookup range =
    let scan = scanned (scan_ids lookup range.max (range.max - range.min + 2) range.min) in
    if not range.proper then none else scan
