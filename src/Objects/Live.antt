-- ===== src/Objects/Live.antt =====
-- The table has no object that has been disposed of.
use platform_upstream_gumd.Common.{
  ℕ, ◌-◌, ◌≡◌, ◌≢◌, ◌<◌, inl, inr, Option, none, some, ◌==◌, Bool-cases, arith,
}
use platform_upstream_gumd.Error.{Error}
use platform_upstream_gumd.Objects.{
  Objects, put, take_ref, allocate, insert, entry_but, on_disposed, drop_ref, set_object, remember,
  insert_new,
}

entry_but-some : (h k : ℕ) (e : Option ℕ) → entry_but h e ≡ some k → (e ≡ some k) × (k ≢ h)
entry_but-some h k none p = ground arith
entry_but-some h k (some j) p = ground arith

module _ {O : Type 0} where
  -- There is an object at the address.
  abbrev pub IsThere : Objects O → ℕ → Type 0
  IsThere os h = (os.refs h ≢ 0) × (h < os.next)

  abbrev pub Live : Objects O → Type 0
  Live os = (id h : ℕ) → os.table id ≡ some h → IsThere os h

  pub take_ref-Live : (h : ℕ) (os : Objects O) → Live os → Live (take_ref h os)
  unfolding take_ref
  take_ref-Live h os l id k e = ground (arith, l id k e)

  pub set_object-Live : (h : ℕ) (o : O) (os : Objects O) → Live os → Live (set_object h o os)
  unfolding set_object
  set_object-Live h o os l = l

  pub set_object-IsThere :
      (h k : ℕ) (o : O) (os : Objects O) → IsThere os k → IsThere (set_object h o os) k
  unfolding set_object
  set_object-IsThere h k o os i = i

  pub insert-Live : (id h : ℕ) (os : Objects O) → IsThere os h → Live os → Live (insert id h os)
  unfolding insert
  insert-Live id h os t l id' k e = ground (arith, l id' k)

  allocate-Live : (o : O) (os : Objects O) → Live os → Live (allocate o os)
  unfolding allocate
  allocate-Live o os l id k e = ground (arith, l id k e)

  allocate-IsThere : (o : O) (os : Objects O) → IsThere (allocate o os) os.next
  unfolding allocate
  allocate-IsThere o os = ground arith

  last_dropped :
      (h : ℕ) (os : Objects O)
      → Live os
      → Live (on_disposed h (record os { refs = put h 0 os.refs }))
  unfolding on_disposed
  last_dropped h os l id k e =
      let f = entry_but-some h k (os.table id) e in ground (arith, l id k f.0, f.1)

  one_dropped :
      (h : ℕ) (os : Objects O)
      → Live os
      → os.refs h ≢ 1
      → Live (record os { refs = put h (os.refs h - 1) os.refs })
  one_dropped h os l n id k e = ground (arith, l id k e)

  pub drop_ref-Live : (h : ℕ) (os : Objects O) → Live os → Live (drop_ref h os)
  unfolding drop_ref
  drop_ref-Live h os l = elim (Bool-cases (os.refs h == 1)) [
    | inl e ↦ rw e (last_dropped h os l)
    | inr e ↦ rw e (one_dropped h os l (ground arith))
  ]

  pub remember-Live :
      (id : ℕ) (o : Option O) (e : Error) (os : Objects O) → Live os → Live (remember id o e os).1
  unfolding remember
  remember-Live id none e os l = l
  remember-Live id (some o) e os l =
      insert-Live id os.next (allocate o os) (allocate-IsThere o os) (allocate-Live o os l)

  pub insert_new-Live :
      (id h : ℕ) (os : Objects O) → IsThere os h → Live os → Live (insert_new id h os).1
  unfolding insert_new
  insert_new-Live id h os t l = ground (arith, insert-Live id h os t l, l)
