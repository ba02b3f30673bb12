-- ===== src/Error.antt =====
-- include/gum/common/gum-error.h: the error codes, and calls that return a value or set a `GError`.
use platform_upstream_gumd.Common.{Bool, true, false}

-- `GumError`, one constructor for each code.
pub data Error : Type 0 where
  no_error unknown internal_server permission_denied : Error
  user_already_exists user_group_add_failure user_uid_not_available : Error
  user_invalid_user_type user_secret_encrypt_failure user_not_found : Error
  user_invalid_data user_group_delete_failure user_self_destruction : Error
  user_session_term_failure user_no_changes user_lock_failure : Error
  group_already_exists group_gid_not_available group_invalid_group_type : Error
  group_secret_encrypt_failure group_not_found group_user_already_a_member : Error
  group_invalid_data group_self_destruction group_has_user group_no_changes : Error
  db_already_locked file_open file_attribute file_move file_write : Error
  home_dir_create_failure home_dir_delete_failure home_dir_copy_failure : Error
  invalid_name invalid_nickname invalid_secret invalid_str invalid_str_len : Error
  invalid_input user_err : Error

-- A function that returns FALSE or NULL with its error set, or else a value.
pub data Result {ℓ} (A : Type ℓ) : Type ℓ where
  ok : A → Result A
  err : Error → Result A

-- `if (!test) GUM_RETURN_WITH_ERROR (e, …)`
abbrev pub require : Bool → Error → Result (Unit {0})
require true e = ok tt
require false e = err e

-- The gboolean of a call that is made with no place for its error.
abbrev pub succeeds {ℓ} : {A : Type ℓ} → Result A → Bool
succeeds (ok a) = true
succeeds (err e) = false

abbrev pub map_ok {ℓ κ} : {A : Type ℓ} {B : Type κ} → (A → B) → Result A → Result B
map_ok f (ok a) = ok (f a)
map_ok f (err e) = err e

-- What follows is run if the check before it succeeds.
infixl 5 ◌>>◌
abbrev pub ◌>>◌ {κ} : {B : Type κ} → Result (Unit {0}) → Result B → Result B
err e >> next = err e
ok _ >> next = next
