-- ===== src/User/Entries.antt =====
-- src/daemon/core/gumd-daemon-user.c: the callbacks that rewrite the passwd and shadow files.
pub mod Locked
use platform_upstream_gumd.Common.{
  ℕ, suc, Bool, true, false, not, ◌&&◌, Option, none, some, List, [], ◌∷◌, Str, strcmp0_eq, ltb,
  ◌==◌, if◌then◌else◌,
}
use platform_upstream_gumd.Error.{Result, ok, err, map_ok, file_write, user_already_exists}
use platform_upstream_gumd.Database.{Passwd, Spwd, stored_passwd, stored_spwd}
use platform_upstream_gumd.File.{OpType, add, delete, modify, UpdateCb}
use platform_upstream_gumd.File.Entries.{Rules, update_loop}
use platform_upstream_gumd.User.{UserObject}

-- `user_data ? user_data : name`
abbrev name_or : Option Str → Option Str → Option Str
name_or none name = name
name_or (some old) name = some old

-- The passwd file is kept in the order of the ids; ADD does not look for duplicates.
unfoldable pub passwd_rules : UserObject → Option Str → Rules Passwd
passwd_rules o old = record {
  stored = stored_passwd;
  own = o.pw;
  clashes = λ _. false;
  clash_error = file_write;
  goes_before = λ e. ltb o.pw.pw_uid e.pw_uid;
  deletes =
      λ e. o.pw.pw_uid == e.pw_uid && o.pw.pw_gid == e.pw_gid && strcmp0_eq o.pw.pw_name e.pw_name;
  replaces = λ e.
      o.pw.pw_uid == e.pw_uid
      && o.pw.pw_gid == e.pw_gid
      && strcmp0_eq (name_or old o.pw.pw_name) e.pw_name;
}

unfoldable pub update_passwd_entry : UserObject → OpType → Option Str → UpdateCb Passwd
unfolding passwd_rules update_loop
update_passwd_entry o op old put_ok entries =
    update_loop (passwd_rules o old) put_ok op false 0 entries

-- New shadow entries go to the end.
unfoldable pub shadow_rules : UserObject → Option Str → Rules Spwd
shadow_rules o old = record {
  stored = stored_spwd;
  own = o.shadow;
  clashes = λ e. strcmp0_eq o.shadow.sp_namp e.sp_namp;
  clash_error = user_already_exists;
  goes_before = λ _. false;
  deletes = λ e. strcmp0_eq o.shadow.sp_namp e.sp_namp;
  replaces = λ e. strcmp0_eq (name_or old o.shadow.sp_namp) e.sp_namp;
}

unfoldable pub update_shadow_entry : UserObject → OpType → Option Str → UpdateCb Spwd
unfolding shadow_rules update_loop
update_shadow_entry o op old put_ok entries =
    update_loop (shadow_rules o old) put_ok op false 0 entries

abbrev keep_or {ℓ} : {A : Type ℓ} → Bool → Option A → Option A → Option A
keep_or false src dest = src
keep_or true src none = src
keep_or true src (some d) = some d

-- The third argument is `copy_only_if_invalid`.
unfoldable pub copy_shadow_struct : Spwd → Spwd → Bool → Spwd
copy_shadow_struct src dest only = record src {
  sp_namp = keep_or only src.sp_namp dest.sp_namp;
  sp_pwdp = keep_or only src.sp_pwdp dest.sp_pwdp;
}

-- The password of an entry that has been read, which is not NULL.
abbrev pub password : Spwd → Str
password e = elim e.sp_pwdp [ none ↦ [] | some s ↦ s ]

-- The first byte is `!`.
abbrev pub is_locked : Str → Bool
is_locked [] = false
is_locked (c ∷ s) = c == b'!'

abbrev pub without_first : Str → Str
without_first [] = []
without_first (c ∷ s) = s

-- What is written in place of the entry `e` of the user.
unfoldable pub lock_entry : Bool → Spwd → Spwd
unfolding copy_shadow_struct
lock_entry lock e =
    let pwd = password e in
    let spent = copy_shadow_struct e e false in
    record spent {
      sp_pwdp =
          if lock && not (is_locked pwd)
          then some (b'!' ∷ pwd)
          else if not lock && is_locked pwd
          then some (without_first pwd)
          else none;
    }

module _ (name : Option Str) (lock : Bool) (put_ok : ℕ → Spwd → Bool) where
  abbrev put : ℕ → Spwd → Result (List Spwd) → Result (List Spwd)
  put n e rest =
      if put_ok n e then map_ok (λ written. stored_spwd e ∷ written) rest else err file_write

  -- The loop of `_lock_shadow_entry`: `done` as at its head, and the number of writes so far.
  unfoldable pub lock_loop : OpType → Bool → ℕ → List Spwd → Result (List Spwd)
  unfolding lock_entry
  lock_loop op true n [] = ok []
  lock_loop op false n [] = err file_write
  lock_loop op true n (e ∷ es) = put n e (lock_loop op true (suc n) es)
  lock_loop modify false n (e ∷ es) =
      let changed = put n (lock_entry lock e) (lock_loop modify true (suc n) es) in
      let later = put n e (lock_loop modify false (suc n) es) in
      if strcmp0_eq name e.sp_namp then changed else later
  lock_loop add false n (e ∷ es) = put n e (lock_loop add false (suc n) es)
  lock_loop delete false n (e ∷ es) = put n e (lock_loop delete false (suc n) es)

-- The third argument is `user_data`.
unfoldable pub lock_shadow_entry : UserObject → OpType → Option Bool → UpdateCb Spwd
unfolding lock_loop
lock_shadow_entry o op none put_ok entries = err file_write
lock_shadow_entry o op (some lock) put_ok entries =
    lock_loop o.pw.pw_name lock put_ok op false 0 entries
