-- ===== src/Tests/Strings.antt =====
-- The string functions, the checks on names and entries, and the encryption of secrets at concrete
-- strings.
use platform_upstream_gumd.Common.{
  ◌≡◌, ◌≢◌, ◌↔◌, refl, true, false, Option, none, some, List, [], ◌∷◌, ◌++◌, Str, codes, strcmp0_eq,
  arith,
}
use platform_upstream_gumd.Error.{ok}
use platform_upstream_gumd.StringUtils.{Free, get_string, insert_string, search_stringv}
use platform_upstream_gumd.StringUtils.Fields.{get_string-insert_string}
use platform_upstream_gumd.Validate.{validate_name, matches, first_set, middle_set, last_set}
use platform_upstream_gumd.Validate.Name.{IsName, validate_name_iff}
use platform_upstream_gumd.Crypt.{encrypt_secret, cmp_secret_eq, salt_char, map_bytes}
use platform_upstream_gumd.Crypt.Compare.{
  Method, md5, sha256, sha512, prefix, cmp_secret-encrypt_secret,
}
use platform_upstream_gumd.Tests.Glib.{byte_strv}

abbrev gecos : Option Str
gecos = some (codes "Alice,,555")

-- The office of a gecos field is written, and read again.
get_string-insert_string_example :
    get_string byte_strv
      (insert_string byte_strv gecos (some b',') (some (codes "B12")) 1 5)
      (some b',')
      1
    ≡ some (codes "B12")
get_string-insert_string_example =
    get_string-insert_string byte_strv gecos b',' (codes "B12") 1 5 1 (ground arith) (omega arith)
      (omega arith)

abbrev alice : Str
alice = codes "alice"

abbrev bob : Str
bob = codes "bob"

abbrev team : List Str
team = alice ∷ []

alice_there : search_stringv (some team) (some alice) ≡ true
unfolding search_stringv strcmp0_eq
alice_there = refl

bob_absent : search_stringv (some team) (some bob) ≡ false
unfolding search_stringv strcmp0_eq
bob_absent = refl

validate_name_iff_example : (validate_name (some alice) ≡ ok tt) ↔ IsName (some alice)
validate_name_iff_example = validate_name_iff (some alice)

alice_valid : validate_name (some alice) ≡ ok tt
unfolding validate_name matches first_set last_set middle_set
alice_valid = refl

-- A sum that does not begin with a letter.
abbrev sum : Str → Str
sum _ = codes "0123456789abcdef0123456789abcdef"

-- A crypt(3) whose hash is the plain text, and that uses the whole salt.
abbrev toy_crypt : Str → Str → Option Str
toy_crypt plain salt = some (salt ++ b'$' ∷ plain)

toy_format :
    (m : Method) (plain t : Str)
    → Free b'$' t
    → toy_crypt plain (prefix m ++ t) ≡ some (prefix m ++ t ++ b'$' ∷ plain)
toy_format md5 plain t f = refl
toy_format sha256 plain t f = refl
toy_format sha512 plain t f = refl

abbrev random : Str
random = codes "0123456789abcdef"

abbrev salt : Str
salt = map_bytes salt_char random

abbrev encrypted : Option Str
encrypted = encrypt_secret toy_crypt (some random) alice (some (codes "SHA512"))

cmp_secret-encrypt_secret_example :
    (encrypted ≢ none) × ((cmp_secret_eq toy_crypt (some bob) encrypted ≡ true) ↔ (bob ≡ alice))
cmp_secret-encrypt_secret_example =
    cmp_secret-encrypt_secret toy_crypt (λ t. t) (λ m plain t. plain) toy_format (λ t f. f)
      (λ t. refl) sha512 random alice bob refl refl

-- A crypt(3) of the traditional kind, whose results hold no `$`.
abbrev old_crypt : Str → Str → Option Str
old_crypt plain _ = some plain
