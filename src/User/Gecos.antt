-- ===== src/User/Gecos.antt =====
-- The fields of gecos as the properties write and read them, for any GLib that keeps to `Strv`.
use platform_upstream_gumd.Common.{
  ℕ, ◌<◌, ◌≡◌, ◌≢◌, refl, sym, ap, ◌∙◌, true, false, ◌||◌, ◌⊎◌, inl, inr, Option, none, some, [],
  Str, strcmp0_eq, strcmp0_eq_iff, ltb, ◌==◌, if◌then◌else◌, Bool-cases, Option-cases, holds_below,
  holds_below_at, arith,
}
use platform_upstream_gumd.Error.{ok, succeeds}
use platform_upstream_gumd.StringUtils.{Free, Strv, get_string, get_or_empty, source_strings}
use platform_upstream_gumd.StringUtils.Fields.{get_string-insert_string, get_or_empty_past}
use platform_upstream_gumd.Validate.{strpbrk, occurs, invalid_in_string, validate_db_string_entry}
use platform_upstream_gumd.Validate.Entry.{validate_db_string_entry-Free}
use platform_upstream_gumd.UserTypes.{
  usertype_max_value, user_type_strings, count_shifts, user_type_strings_index, type_from_string,
  type_to_string,
}
use platform_upstream_gumd.User.{
  UserObject, GecosField, place, gecos_field_count, realname, office, officephone, homephone,
  usertype, gecos_string, with_gecos, usertype_from_gecos, set_gecos_property,
  set_usertype_property,
}

abbrev pub text_of : Option Str → Str
text_of none = []
text_of (some s) = s

module _ (glib : Strv) where
  -- The text of a field; a field that is not there is empty.
  abbrev pub text : Option Str → GecosField → Str
  text gecos field = text_of (gecos_string glib gecos field)

  text-source :
      (gecos : Option Str) (field : GecosField)
      → text gecos field ≡ get_or_empty (source_strings glib gecos b',') (place field)
  unfolding get_string
  text-source none field = refl
  text-source (some s) field = ground (arith, get_or_empty_past (glib.split b',' s) (place field))

  place-lt : (field : GecosField) → place field < gecos_field_count
  place-lt realname = omega arith
  place-lt office = omega arith
  place-lt officephone = omega arith
  place-lt homephone = omega arith
  place-lt usertype = omega arith

  gecos_string-with_gecos :
      (field other : GecosField) (value : Str) (o : UserObject)
      → Free b',' value
      → gecos_string glib (with_gecos glib field (some value) o).pw.pw_gecos other
        ≡ some (if place other == place field then value else text o.pw.pw_gecos other)
  unfolding with_gecos
  gecos_string-with_gecos field other value o free = rw (text-source o.pw.pw_gecos other) (
      let there : ltb (place other) gecos_field_count ≡ true = ground (arith, place-lt other) in
      rw (
        get_string-insert_string glib o.pw.pw_gecos b',' value (place field) gecos_field_count
            (place other) free (place-lt field) (omega arith),
        there,
      ))

  unchanged :
      (field other : GecosField) (value : Str) (gecos : Option Str)
      → gecos_string glib gecos field ≡ some value
      → text gecos other ≡ (if place other == place field then value else text gecos other)
  unchanged field other value gecos h = elim (Bool-cases (place other == place field)) [
    | inl e ↦
        let p : place other ≡ place field = ground arith in
        rw e (ap (λ k. text_of (get_string glib gecos (some b',') k)) p ∙ ap text_of h)
    | inr e ↦ rw e
  ]

  -- An accepted value is put in its field, and the texts of all other fields stay.
  set_gecos_property-text :
      (field other : GecosField) (value : Str) (o : UserObject)
      → validate_db_string_entry (some value) ≡ ok tt
      → text (set_gecos_property glib field (some value) o).pw.pw_gecos other
        ≡ (if place other == place field then value else text o.pw.pw_gecos other)
  unfolding set_gecos_property
  set_gecos_property-text field other value o valid =
      elim (Bool-cases (strcmp0_eq (some value) (gecos_string glib o.pw.pw_gecos field))) [
        | inl same ↦
            rw same (unchanged field other value o.pw.pw_gecos (sym ((strcmp0_eq_iff _ _).0 same)))
        | inr differs ↦
            rw (differs, valid)
              (ap text_of (
                gecos_string-with_gecos field other value o
                  (validate_db_string_entry-Free value valid)))
      ]

name_table :
    holds_below
      (λ t. t == 0 || succeeds (validate_db_string_entry (type_to_string t)))
      usertype_max_value
    ≡ true
unfolding holds_below type_to_string count_shifts user_type_strings_index user_type_strings
    validate_db_string_entry strpbrk occurs invalid_in_string
name_table = refl

name_valid :
    (value : ℕ)
    → 0 < value
    → value < usertype_max_value
    → validate_db_string_entry (type_to_string value) ≡ ok tt
name_valid value pos h = ground (
  arith,
  holds_below_at (λ t. t == 0 || succeeds (validate_db_string_entry (type_to_string t)))
      usertype_max_value value h name_table,
)

no_entry : validate_db_string_entry none ≢ ok tt
unfolding validate_db_string_entry
no_entry e = ground arith

name_there :
    (value : ℕ)
    → 0 < value
    → value < usertype_max_value
    → (name : Str) × (type_to_string value ≡ some name)
      × (validate_db_string_entry (some name) ≡ ok tt)
name_there value pos h = elim (Option-cases (type_to_string value)) [
  | inl e ↦ absurd (no_entry (ap validate_db_string_entry (sym e) ∙ name_valid value pos h))
  | inr (name, e) ↦ (name, e, ap validate_db_string_entry (sym e) ∙ name_valid value pos h)
]

usertype_of_string :
    (glib : Strv) (gecos : Option Str)
    → usertype_from_gecos glib gecos ≡ type_from_string (gecos_string glib gecos usertype)
unfolding usertype_from_gecos get_string type_from_string
usertype_of_string glib none = refl
usertype_of_string glib (some s) = refl

module _ (glib : Strv) (value : ℕ) (o : UserObject) where
  set_usertype_cases :
      0 < value
      → value < usertype_max_value
      → (set_usertype_property glib value o ≡ o) × (usertype_from_gecos glib o.pw.pw_gecos ≡ value)
        ⊎ (set_usertype_property glib value o ≡ with_gecos glib usertype (type_to_string value) o)
  unfolding set_usertype_property
  set_usertype_cases pos h = ground arith

  -- What the theorem below says of the object after the change.
  abbrev HasType : GecosField → UserObject → Type 0
  HasType other o' =
      (usertype_from_gecos glib o'.pw.pw_gecos ≡ value)
      × (text glib o'.pw.pw_gecos other ≡ text glib o.pw.pw_gecos other)

  written :
      (other : GecosField) (name : Str)
      → type_from_string (some name) ≡ value
      → place other ≢ place usertype
      → Free b',' name
      → HasType other (with_gecos glib usertype (some name) o)
  written other name back differs free =
      let apart : (place other == place usertype) ≡ false = ground arith in
      (
        usertype_of_string glib _
            ∙ ap type_from_string (gecos_string-with_gecos glib usertype usertype name o free)
            ∙ back,
        ap text_of (gecos_string-with_gecos glib usertype other name o free) ∙ rw apart,
      )

  -- A type that is set, one that is read again from its name, is read from gecos; and the text of
  -- every other field stays.
  pub set_usertype_property-usertype_from_gecos :
      (other : GecosField)
      → 0 < value
      → value < usertype_max_value
      → type_from_string (type_to_string value) ≡ value
      → place other ≢ place usertype
      → (usertype_from_gecos glib (set_usertype_property glib value o).pw.pw_gecos ≡ value)
        × (text glib (set_usertype_property glib value o).pw.pw_gecos other
            ≡ text glib o.pw.pw_gecos other)
  set_usertype_property-usertype_from_gecos other pos h back differs =
      let (name, e, valid) = name_there value pos h in
      elim (set_usertype_cases pos h) [
        | inl (same, has) ↦ rw same (has, refl)
        | inr changed ↦
            rw (changed, e)
              (written other name (ap type_from_string (sym e) ∙ back) differs
                (validate_db_string_entry-Free name valid))
      ]
