-- ===== src/Crypt.antt =====
-- src/common/gum-crypt.c: encrypting a secret with a fresh salt, and comparing one with an encrypted
-- one. `crypt` of libcrypt and the bytes of /dev/urandom are parameters.
pub mod Compare
use platform_upstream_gumd.Common.{
  ℕ, zero, suc, ◌+◌, ◌%◌, ◌<◌, ◌≡◌, Bool, true, false, not, ◌&&◌, Option, none, some, List, [], ◌∷◌,
  ◌++◌, Str, codes, strcmp0_eq, leb, ◌==◌, if◌then◌else◌, length, get_elem?,
}

-- `_salt_chars`
unfoldable pub salt_chars : Str
salt_chars = codes "./0123456789ABCDEFGHIJKLMNOPQRSTUVWXYZabcdefghijklmnopqrstuvwxyz"

-- `_salt_chars[b & 0x3F]`
unfoldable pub salt_char : ℕ → ℕ
salt_char b = elim (get_elem? salt_chars (b % 64)) [ none ↦ 0 | some c ↦ c ]

unfoldable pub method_id : Option Str → Str
method_id algo =
    if strcmp0_eq algo (some (codes "MD5"))
    then codes "$1$"
    else if strcmp0_eq algo (some (codes "SHA256"))
    then codes "$5$"
    else if strcmp0_eq algo (some (codes "SHA512"))
    then codes "$6$"
    else []

abbrev pub map_bytes : (ℕ → ℕ) → Str → Str
map_bytes f [] = []
map_bytes f (b ∷ s) = f b ∷ map_bytes f s

-- `urandom` is what reading 16 bytes from /dev/urandom gives; `none` if it cannot be opened.
unfoldable pub generate_salt : Option Str → Option Str → Option Str
unfolding salt_char method_id
generate_salt urandom algo = elim urandom [
  | none ↦ none
  | some bytes ↦
      if length bytes == 16 then some (method_id algo ++ map_bytes salt_char bytes) else none
]

unfoldable pub encrypt_secret :
    (Str → Str → Option Str) → Option Str → Str → Option Str → Option Str
unfolding generate_salt
encrypt_secret crypt urandom secret algo = elim (generate_salt urandom algo) [
  | none ↦ none
  | some salt ↦ crypt secret salt
]

abbrev is_digit : ℕ → Bool
is_digit c = leb b'0' c && leb c b'9'

-- The loop of `_extract_salt` from place `i` on: the bytes before the first `$` there.
unfoldable pub before_dollar : Str → Option Str
before_dollar [] = none
before_dollar (c ∷ s) =
    let rest = before_dollar s in
    if c == b'$' then some [] else elim rest [ none ↦ none | some t ↦ some (c ∷ t) ]

abbrev prepend : Str → Option Str → Option Str
prepend s none = none
prepend s (some t) = some (s ++ t)

unfoldable pub extract_salt : Option Str → Option Str
unfolding before_dollar
extract_salt none = none
extract_salt (some (a ∷ b ∷ c ∷ s)) =
    if a == b'$' && is_digit b && c == b'$'
    then prepend (a ∷ b ∷ c ∷ []) (before_dollar s)
    else before_dollar (a ∷ b ∷ c ∷ s)
extract_salt (some s) = before_dollar s

-- `gum_crypt_cmp_secret (…) == 0`
unfoldable pub cmp_secret_eq : (Str → Str → Option Str) → Option Str → Option Str → Bool
unfolding extract_salt
cmp_secret_eq crypt none enc = false
cmp_secret_eq crypt (some plain) none = false
cmp_secret_eq crypt (some plain) (some enc) = elim (extract_salt (some enc)) [
  | none ↦ false
  | some salt ↦ strcmp0_eq (crypt plain salt) (some enc)
]
