-- ===== src/Tests/Users.antt =====
-- The types, the fields and the files of users at concrete users.
use platform_upstream_gumd.Common.{
  ℕ, ◌≡◌, ◌⊎◌, refl, true, false, none, some, [], ◌∷◌, Str, codes, strcmp0_eq, arith,
}
use platform_upstream_gumd.Common.Int.{pos, negsuc}
use platform_upstream_gumd.Error.{ok, err, file_write}
use platform_upstream_gumd.Database.{Passwd, Spwd}
use platform_upstream_gumd.StringUtils.{get_string}
use platform_upstream_gumd.File.{modify}
use platform_upstream_gumd.File.Placement.{any, WriteFails}
use platform_upstream_gumd.UserTypes.{
  usertype_none, usertype_admin, user_type_strings, count_shifts, user_type_strings_index,
  type_to_string, type_from_string, value_of,
}
use platform_upstream_gumd.World.{State}
use platform_upstream_gumd.World.Post.{Post}
use platform_upstream_gumd.User.{
  UserObject, new_user, realname, set_usertype_property, usertype_from_gecos,
}
use platform_upstream_gumd.User.Gecos.{text, set_usertype_property-usertype_from_gecos}
use platform_upstream_gumd.User.Entries.{lock_shadow_entry}
use platform_upstream_gumd.User.Entries.Locked.{
  change_first, changed, is_of, lock_shadow_entry-change_first,
}
use platform_upstream_gumd.User.Listing.Listed.{Listed, type_name}
use platform_upstream_gumd.Tests.Glib.{byte_strv, pieces}
use platform_upstream_gumd.Tests.Groups.{config, world}

abbrev pub passwd : Str → ℕ → Str → Passwd
passwd name uid gecos = record {
  pw_name = some name;
  pw_passwd = some (codes "x");
  pw_uid = uid;
  pw_gid = uid;
  pw_gecos = some gecos;
  pw_dir = some (codes "/home");
  pw_shell = some (codes "/bin/sh");
}

abbrev alice : UserObject
alice = record new_user { pw = passwd (codes "alice") 5001 (codes "Alice,,555,,normal") }

admin_back : type_from_string (type_to_string usertype_admin) ≡ usertype_admin
unfolding type_to_string count_shifts user_type_strings_index type_from_string value_of
    user_type_strings strcmp0_eq
admin_back = refl

set_usertype_property-usertype_from_gecos_example :
    (usertype_from_gecos byte_strv
        (set_usertype_property byte_strv usertype_admin alice).pw.pw_gecos
      ≡ usertype_admin)
    × (text byte_strv (set_usertype_property byte_strv usertype_admin alice).pw.pw_gecos realname
        ≡ text byte_strv alice.pw.pw_gecos realname)
set_usertype_property-usertype_from_gecos_example =
    set_usertype_property-usertype_from_gecos byte_strv usertype_admin alice realname (omega arith)
      (omega arith) admin_back (ground arith)

abbrev pub spwd : Spwd
spwd = record {
  sp_namp = some (codes "alice");
  sp_pwdp = some (codes "secret");
  sp_lstchg = pos 16000;
  sp_min = pos 0;
  sp_max = pos 99999;
  sp_warn = pos 7;
  sp_inact = negsuc 0;
  sp_expire = negsuc 0;
  sp_flag = negsuc 0;
}

lock_shadow_entry-change_first_example :
    (lock_shadow_entry alice modify (some true) (λ _ _. true) (spwd ∷ [])
        ≡ ok (change_first (is_of alice.pw.pw_name) (changed true) (spwd ∷ [])))
      × (any (is_of alice.pw.pw_name) (spwd ∷ []) ≡ true)
    ⊎ (lock_shadow_entry alice modify (some true) (λ _ _. true) (spwd ∷ []) ≡ err file_write)
      × ((any (is_of alice.pw.pw_name) (spwd ∷ []) ≡ false) ⊎ WriteFails {A = Spwd} (λ _ _. true))
lock_shadow_entry-change_first_example =
    lock_shadow_entry-change_first alice true (λ _ _. true) (spwd ∷ []) (refl, tt)

abbrev visitor : Passwd
visitor = passwd (codes "visitor") 5002 (codes "Visitor")

abbrev start : State UserObject
start = record {
  self = alice;
  world = record world {
    passwd = record { source = some (alice.pw ∷ visitor ∷ []); old = none; dup = none };
  };
}

alice_named : type_name byte_strv config alice.pw ≡ some (codes "normal")
unfolding get_string pieces any strcmp0_eq
alice_named = refl

visitor_untyped :
    usertype_from_gecos byte_strv (passwd (codes "visitor") 5002 (codes "Visitor")).pw_gecos
    ≡ usertype_none
unfolding usertype_from_gecos get_string type_from_string pieces
visitor_untyped = refl
