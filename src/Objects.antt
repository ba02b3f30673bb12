-- ===== src/Objects.antt =====
-- src/daemon/core/gumd-daemon.c: the tables in which the daemon keeps the user and the group objects
-- that are in use. An object is known by its address; the daemon's weak reference to it is the call
-- back when it loses its last reference.
pub mod Live
use platform_upstream_gumd.Common.{
  ℕ, suc, ◌+◌, ◌-◌, Bool, true, false, Option, none, some, ◌==◌, if◌then◌else◌,
}
use platform_upstream_gumd.Error.{Error, Result, ok, err}

-- The objects of one kind: what is at an address, how many references there are to it, the next
-- address, and the daemon's table by ids.
pub record Objects (O : Type 0) : Type 0 where
  pub at : ℕ → O
  pub refs : ℕ → ℕ
  pub next : ℕ
  pub table : ℕ → Option ℕ

abbrev pub put {ℓ} : {A : Type ℓ} → ℕ → A → (ℕ → A) → ℕ → A
put k a f n = if n == k then a else f n

-- An entry, unless its value is the object.
abbrev pub entry_but : ℕ → Option ℕ → Option ℕ
entry_but h none = none
entry_but h (some k) = if k == h then none else some k

module _ {O : Type 0} where
  -- `g_object_ref`
  unfoldable pub take_ref : ℕ → Objects O → Objects O
  take_ref h os = record os { refs = put h (os.refs h + 1) os.refs }

  -- A new object with one reference.
  unfoldable pub allocate : O → Objects O → Objects O
  allocate o os = record os {
    at = put os.next o os.at;
    refs = put os.next 1 os.refs;
    next = suc os.next;
  }

  -- `g_hash_table_insert` with `g_object_weak_ref`
  unfoldable pub insert : ℕ → ℕ → Objects O → Objects O
  insert id h os = record os { table = put id (some h) os.table }

  -- `_on_user_disposed` and `_on_group_disposed`
  unfoldable pub on_disposed : ℕ → Objects O → Objects O
  on_disposed h os = record os { table = λ id. entry_but h (os.table id) }

  -- `g_object_unref`
  unfoldable pub drop_ref : ℕ → Objects O → Objects O
  unfolding on_disposed
  drop_ref h os =
      let gone = on_disposed h (record os { refs = put h 0 os.refs }) in
      if os.refs h == 1 then gone else record os { refs = put h (os.refs h - 1) os.refs }

  unfoldable pub set_object : ℕ → O → Objects O → Objects O
  set_object h o os = record os { at = put h o os.at }

  -- The object that `new_by_…` gives, in the table.
  unfoldable pub remember : ℕ → Option O → Error → Objects O → Result ℕ × Objects O
  unfolding allocate insert
  remember id none e os = (err e, os)
  remember id (some o) e os = (ok os.next, insert id os.next (allocate o os))

  -- An object that has been added under an id, and whether it is new in the table.
  unfoldable pub insert_new : ℕ → ℕ → Objects O → Bool × Objects O
  unfolding insert
  insert_new id h os = elim (os.table id) [ some k ↦ (false, os) | none ↦ (true, insert id h os) ]
