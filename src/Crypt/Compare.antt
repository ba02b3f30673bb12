-- ===== src/Crypt/Compare.antt =====
-- `gum_crypt_cmp_secret` on what `gum_crypt_encrypt_secret` has made.
use platform_upstream_gumd.Common.{
  ℕ, ◌%◌, ◌≡◌, ◌≢◌, refl, sym, ◌∙◌, ap, true, false, not, Option, none, some, [], ◌∷◌, ◌++◌, Str,
  codes, strcmp0_eq, strcmp0_eq_iff, ◌==◌, length, holds_below, holds_below_at, ◌↔◌, arith,
}
use mathlib.Core.List.{append_cancel_left, tail}
use platform_upstream_gumd.StringUtils.{Free}
use platform_upstream_gumd.Crypt.{
  salt_chars, salt_char, method_id, map_bytes, encrypt_secret, before_dollar, extract_salt,
  cmp_secret_eq,
}

some_injective : {s t : Str} → some s ≡ some t → s ≡ t
some_injective e = cc

before_dollar-append : (t h : Str) → Free b'$' t → before_dollar (t ++ b'$' ∷ h) ≡ some t
unfolding before_dollar
before_dollar-append [] h f = refl
before_dollar-append (c ∷ t) h f = ground (arith, before_dollar-append t h f.1)

before_dollar-Free : (s : Str) → Free b'$' s → before_dollar s ≡ none
unfolding before_dollar
before_dollar-Free [] f = refl
before_dollar-Free (c ∷ s) f = ground (arith, before_dollar-Free s f.1)

-- The methods that put a `$id$` before the salt.
pub data Method : Type 0 where
  md5 sha256 sha512 : Method

abbrev pub method_name : Method → Str
method_name md5 = codes "MD5"
method_name sha256 = codes "SHA256"
method_name sha512 = codes "SHA512"

abbrev pub prefix : Method → Str
prefix md5 = codes "$1$"
prefix sha256 = codes "$5$"
prefix sha512 = codes "$6$"

method_id-prefix : (m : Method) → method_id (some (method_name m)) ≡ prefix m
unfolding method_id strcmp0_eq
method_id-prefix md5 = refl
method_id-prefix sha256 = refl
method_id-prefix sha512 = refl

extract_salt-prefix :
    (m : Method) (t h : Str)
    → Free b'$' t
    → extract_salt (some (prefix m ++ t ++ b'$' ∷ h)) ≡ some (prefix m ++ t)
unfolding extract_salt
extract_salt-prefix md5 t h f = rw (before_dollar-append t h f)
extract_salt-prefix sha256 t h f = rw (before_dollar-append t h f)
extract_salt-prefix sha512 t h f = rw (before_dollar-append t h f)

-- No salt character is `$`.
salt_table : holds_below (λ b. not (salt_char b == b'$')) 64 ≡ true
unfolding holds_below salt_char salt_chars
salt_table = refl

salt_char-mod : (b : ℕ) → salt_char b ≡ salt_char (b % 64)
unfolding salt_char
salt_char-mod b = let e : b % 64 % 64 ≡ b % 64 = omega arith in rw (salt_char, e)

salt_char-Free : (b : ℕ) → salt_char b ≢ b'$'
salt_char-Free b = ground (
  arith,
  salt_char-mod b,
  holds_below_at (λ b. not (salt_char b == b'$')) 64 (b % 64) (omega arith) salt_table,
)

salt-Free : (bytes : Str) → Free b'$' (map_bytes salt_char bytes)
salt-Free [] = tt
salt-Free (b ∷ bytes) = (salt_char-Free b, salt-Free bytes)

-- What crypt(3) documents of the three methods: the result is the `$id$`, the part of the salt that
-- is used, `$` and a hash. The part that is used holds no `$` if the salt does not, and is all used
-- when it is given again.
module _ (crypt : Str → Str → Option Str) (used : Str → Str) (hash : Method → Str → Str → Str)
    (crypt_format : (m : Method) (plain t : Str)
      → Free b'$' t
      → crypt plain (prefix m ++ t) ≡ some (prefix m ++ used t ++ b'$' ∷ hash m plain (used t)))
    (used-Free : (t : Str) → Free b'$' t → Free b'$' (used t))
    (used-used : (t : Str) → used (used t) ≡ used t) where
  module _ (m : Method) (bytes plain other : Str) (n : length bytes ≡ 16) where
    abbrev chars : Str
    chars = map_bytes salt_char bytes

    abbrev encrypted : Str → Str
    encrypted secret = prefix m ++ used chars ++ b'$' ∷ hash m secret (used chars)

    encrypt_secret_format :
        encrypt_secret crypt (some bytes) plain (some (method_name m)) ≡ some (encrypted plain)
    unfolding encrypt_secret
    encrypt_secret_format =
        ground (arith, method_id-prefix m, crypt_format m plain chars (salt-Free bytes))

    crypt_again : crypt other (prefix m ++ used chars) ≡ some (encrypted other)
    crypt_again =
        crypt_format m other (used chars) (used-Free chars (salt-Free bytes))
        ∙ ap (λ t. some (prefix m ++ t ++ b'$' ∷ hash m other t)) (used-used chars)

    cmp_secret_format :
        cmp_secret_eq crypt (some other) (some (encrypted plain))
        ≡ strcmp0_eq (some (encrypted other)) (some (encrypted plain))
    unfolding cmp_secret_eq
    cmp_secret_format = ground (
      arith,
      extract_salt-prefix m (used chars) (hash m plain (used chars))
          (used-Free chars (salt-Free bytes)),
      crypt_again,
    )

    same_hash :
        encrypted other ≡ encrypted plain → hash m other (used chars) ≡ hash m plain (used chars)
    same_hash e = ap tail (append_cancel_left (prefix m ++ used chars) _ _ e)

  -- With a crypt(3) of that format, MD5, SHA256 or SHA512 and 16 random bytes, a secret is encrypted,
  -- and any secret compares equal to the result exactly when `crypt` gives it the same hash; so the
  -- secret itself does.
  pub cmp_secret-encrypt_secret :
      (m : Method) (bytes plain other : Str) {enc : Option Str}
      → length bytes ≡ 16
      → encrypt_secret crypt (some bytes) plain (some (method_name m)) ≡ enc
      → let t = used (map_bytes salt_char bytes) in
        (enc ≢ none)
        × ((cmp_secret_eq crypt (some other) enc ≡ true) ↔ (hash m other t ≡ hash m plain t))
  cmp_secret-encrypt_secret m bytes plain other {enc} n e =
      let format = encrypt_secret_format m bytes plain other n in
      let cmp = cmp_secret_format m bytes plain other n in
      rw (← e, format)
        (
          cc,
          (
            (λ h.
                same_hash m bytes plain other n
                  (some_injective ((strcmp0_eq_iff _ _).0 (sym cmp ∙ h)))),
            (λ h. cmp ∙ (strcmp0_eq_iff _ _).1 (rw h)),
          ),
        )

-- A result of `crypt` with no `$`, as the traditional method gives it, never compares equal, not
-- even to the secret that it was made from.
cmp_secret_no_method :
    (crypt : Str → Str → Option Str) (plain : Option Str) (enc : Str)
    → Free b'$' enc
    → cmp_secret_eq crypt plain (some enc) ≡ false
unfolding cmp_secret_eq extract_salt
cmp_secret_no_method crypt none enc f = refl
cmp_secret_no_method crypt (some p) [] f = refl
cmp_secret_no_method crypt (some p) (a ∷ []) f = ground (arith, before_dollar-Free (a ∷ []) f)
cmp_secret_no_method crypt (some p) (a ∷ b ∷ []) f =
    ground (arith, before_dollar-Free (a ∷ b ∷ []) f)
cmp_secret_no_method crypt (some p) (a ∷ b ∷ c ∷ s) f =
    ground (arith, before_dollar-Free (a ∷ b ∷ c ∷ s) f)
