-- ===== src/User/Entries/Locked.antt =====
-- What the locking of a shadow entry writes.
use platform_upstream_gumd.Common.{
  ℕ, suc, ◌≡◌, ◌⊎◌, refl, Bool, true, false, Option, some, List, [], ◌∷◌, Str, strcmp0_eq, ◌==◌,
  not, ◌&&◌, none, ap, if◌then◌else◌, arith,
}
use platform_upstream_gumd.Error.{ok, err, file_write}
use platform_upstream_gumd.Database.{Spwd, field, stored_spwd}
use platform_upstream_gumd.File.{OpType, modify}
use platform_upstream_gumd.File.Placement.{Settled, any, WriteFails, failing}
use platform_upstream_gumd.User.{UserObject}
use platform_upstream_gumd.User.Entries.{
  copy_shadow_struct, password, is_locked, without_first, lock_entry, lock_loop, lock_shadow_entry,
}

-- The entries with the first one of the user changed.
pub change_first : (Spwd → Bool) → (Spwd → Spwd) → List Spwd → List Spwd
change_first p change [] = []
change_first p change (e ∷ es) =
    let rest = change_first p change es in if p e then change e ∷ es else e ∷ rest

-- Another password than the one that an entry has: locking puts a `!` in front of one without, and
-- unlocking takes it away; else the password becomes empty.
unfoldable pub changed_password : Bool → Str → Str
changed_password true [] = b'!' ∷ []
changed_password true (c ∷ pwd) = if c == b'!' then [] else b'!' ∷ c ∷ pwd
changed_password false [] = []
changed_password false (c ∷ pwd) = if c == b'!' then pwd else []

abbrev pub changed : Bool → Spwd → Spwd
changed lock e = record e { sp_pwdp = some (changed_password lock (password e)) }

changed_password_lem :
    (lock : Bool) (pwd : Str)
    → field (
        if lock && not (is_locked pwd)
        then some (b'!' ∷ pwd)
        else if not lock && is_locked pwd
        then some (without_first pwd)
        else none)
      ≡ some (changed_password lock pwd)
unfolding changed_password
changed_password_lem true [] = refl
changed_password_lem false [] = refl
changed_password_lem true (c ∷ pwd) = ground arith
changed_password_lem false (c ∷ pwd) = ground arith

changed-lock_entry : (lock : Bool) (e : Spwd) → stored_spwd (lock_entry lock e) ≡ changed lock e
unfolding lock_entry copy_shadow_struct
changed-lock_entry lock e =
    ap (λ f. record e { sp_pwdp = f }) (changed_password_lem lock (password e))

abbrev pub is_of : Option Str → Spwd → Bool
is_of name e = strcmp0_eq name e.sp_namp

module _ (name : Option Str) (lock : Bool) (put_ok : ℕ → Spwd → Bool) where
  lock_loop_done :
      {W : Type 0} (fails : (n : ℕ) (e : Spwd) → put_ok n e ≡ false → W) (op : OpType) (n : ℕ)
      (es : List Spwd)
      → Settled stored_spwd es
      → (lock_loop name lock put_ok op true n es ≡ ok es)
        ⊎ (lock_loop name lock put_ok op true n es ≡ err file_write) × W
  unfolding lock_loop
  lock_loop_done fails op n [] s = ground arith
  lock_loop_done fails op n (e ∷ es) s =
      ground (arith, lock_loop_done fails op (suc n) es s.1, fails n e)

  lock_loop-change_first :
      {W : Type 0} (fails : (n : ℕ) (e : Spwd) → put_ok n e ≡ false → W) (n : ℕ) (es : List Spwd)
      → Settled stored_spwd es
      → (lock_loop name lock put_ok modify false n es
            ≡ ok (change_first (is_of name) (changed lock) es))
          × (any (is_of name) es ≡ true)
        ⊎ (lock_loop name lock put_ok modify false n es ≡ err file_write)
          × ((any (is_of name) es ≡ false) ⊎ W)
  unfolding lock_loop change_first any
  lock_loop-change_first fails n [] s = ground arith
  lock_loop-change_first fails n (e ∷ es) s = ground (
    arith,
    lock_loop-change_first fails (suc n) es s.1,
    lock_loop_done fails modify (suc n) es s.1,
    changed-lock_entry lock e,
    fails n e,
    fails n (lock_entry lock e),
  )

-- On entries as they are read from a file, locking or unlocking writes the shadow file with the
-- first entry of the user changed, in nothing but the password: locking puts a `!` in front of a
-- password without one, unlocking takes the `!` away, and either leaves an empty password otherwise.
-- It fails only if there is no entry of the user or a write fails.
pub lock_shadow_entry-change_first :
    (o : UserObject) (lock : Bool) (put_ok : ℕ → Spwd → Bool) (es : List Spwd)
    → Settled stored_spwd es
    → (lock_shadow_entry o modify (some lock) put_ok es
          ≡ ok (change_first (is_of o.pw.pw_name) (changed lock) es))
        × (any (is_of o.pw.pw_name) es ≡ true)
      ⊎ (lock_shadow_entry o modify (some lock) put_ok es ≡ err file_write)
        × ((any (is_of o.pw.pw_name) es ≡ false) ⊎ WriteFails put_ok)
unfolding lock_shadow_entry
lock_shadow_entry-change_first o lock put_ok es s =
    lock_loop-change_first o.pw.pw_name lock put_ok (λ n e h. failing n e h) 0 es s

-- What is read of an entry after it has been locked, or unlocked.
abbrev pub relocked : Bool → Spwd → Spwd
relocked lock e = stored_spwd (lock_entry lock e)

-- An entry as it is read from a file, and that is not locked, is locked by locking it, and
-- unlocking gives it back as it was; but locking it twice, or unlocking it, leaves an empty
-- password.
relocked-relocked :
    (e : Spwd)
    → stored_spwd e ≡ e
    → is_locked (password e) ≡ false
    → (is_locked (password (relocked true e)) ≡ true)
      × (relocked false (relocked true e) ≡ e)
      × (password (relocked true (relocked true e)) ≡ [])
      × (password (relocked false e) ≡ [])
unfolding lock_entry copy_shadow_struct
relocked-relocked e s h = (rw h refl, ground arith, rw h refl, rw h refl)
