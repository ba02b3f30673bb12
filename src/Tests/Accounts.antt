-- ===== src/Tests/Accounts.antt =====
-- The operations on users in a concrete system.
use platform_upstream_gumd.Common.{
  ◌≡◌, ◌⊎◌, inl, inr, Option-cases, ap, sym, ◌∙◌, ◌<◌, refl, true, false, none, some, List, [], ◌∷◌,
  Str, codes, arith,
}
use platform_upstream_gumd.Database.{Passwd}
use platform_upstream_gumd.File.{invalid_id, getpwuid}
use platform_upstream_gumd.Ids.Free.{Searched}
use platform_upstream_gumd.Home.{Homes, create_home_dir, delete_home_dir}
use platform_upstream_gumd.Home.Copied.{Created, Elsewhere, Kept, create_home_dir-Created}
use platform_upstream_gumd.Home.Removed.{Deleted, delete_home_dir-Deleted}
use platform_upstream_gumd.World.{World, State}
use platform_upstream_gumd.World.Locking.{count}
use platform_upstream_gumd.World.Post.{Post}
use platform_upstream_gumd.User.{UserObject, new_user}
use platform_upstream_gumd.User.Ids.{type_of, get_default_uid_range, find_free_uid}
use platform_upstream_gumd.User.Ids.Free.{find_free_uid-Searched}
use platform_upstream_gumd.User.Operations.{user_add, user_delete, user_update}
use platform_upstream_gumd.User.Operations.Balance.{deletes, perform_user, perform_user-count}
use platform_upstream_gumd.User.Operations.Add
use platform_upstream_gumd.User.Operations.Add.{Given, user_add-Added}
use platform_upstream_gumd.User.Operations.Delete
use platform_upstream_gumd.User.Operations.Delete.{Removed, user_delete-Removed}
use platform_upstream_gumd.User.Operations.Update
use platform_upstream_gumd.User.Operations.Update.{Updated, user_update-Updated}
use platform_upstream_gumd.Tests.Glib.{byte_strv}
use platform_upstream_gumd.Tests.Groups.{config, os, world, made_at, home_io, skel}
use platform_upstream_gumd.Tests.Users.{passwd, spwd}

-- With the group `users` as the primary one.
abbrev in_users : Passwd → Passwd
in_users p = record p { pw_gid = 100 }

abbrev entries : List Passwd
entries =
    passwd (codes "root") 0 (codes "root,,,,system")
    ∷ in_users (passwd (codes "alice") 5001 (codes "Alice,,555,,normal"))
    ∷ []

abbrev pub with_users : World
with_users = record world {
  passwd = record { source = some entries; old = none; dup = none };
  shadow = record { source = some (spwd ∷ []); old = none; dup = none };
}

abbrev bob : State UserObject
bob = record {
  self = record new_user {
    pw = record (new_user.pw) {
      pw_name = some (codes "bob");
      pw_gecos = some (codes "Bob,,,,normal");
    };
  };
  world = with_users;
}

-- An object that stands for alice, with a new office.
abbrev alice : State UserObject
alice = record {
  self = record new_user {
    pw = in_users (passwd (codes "alice") 5001 (codes "Alice,B12,555,,normal"));
  };
  world = with_users;
}

user_add-Added_example :
    Post
      (Given byte_strv os config bob entries refl (refl, (refl, tt)))
      (Add.Settles byte_strv os config bob entries refl (refl, (refl, tt)))
      (user_add byte_strv os config bob)
user_add-Added_example = user_add-Added byte_strv os config bob entries refl (refl, (refl, tt))

user_delete-Removed_example :
    Post
      (λ _ t. Removed byte_strv os config alice entries refl (refl, (refl, tt)) t)
      (Delete.Settles byte_strv os config alice entries refl (refl, (refl, tt)))
      (user_delete byte_strv os config false alice)
user_delete-Removed_example =
    user_delete-Removed byte_strv os config alice entries refl (refl, (refl, tt)) false

user_update-Updated_example :
    Post
      (λ _ t. Updated byte_strv os config alice entries refl (refl, (refl, tt)) t)
      (Update.Settles byte_strv os config alice entries refl (refl, (refl, tt)))
      (user_update byte_strv os config alice)
user_update-Updated_example =
    user_update-Updated byte_strv os config alice entries refl (refl, (refl, tt))

perform_user-count_example :
    count (perform_user byte_strv os config (deletes true) alice) ≡ count alice
perform_user-count_example = perform_user-count byte_strv os config (deletes true) alice

range_small : (get_default_uid_range config (type_of byte_strv bob.self)).max < invalid_id
unfolding get_default_uid_range
range_small = ground arith

find_free_uid-Searched_example :
    Searched
      (λ uid. getpwuid uid with_users.passwd)
      (get_default_uid_range config (type_of byte_strv bob.self))
      (find_free_uid byte_strv config with_users.passwd bob.self)
find_free_uid-Searched_example =
    find_free_uid-Searched byte_strv config with_users.passwd bob.self range_small

abbrev home : Str
home = codes "/home/bob"

home_made_keeps :
    (path : Str) (homes : Homes) (q : Str)
    → (homes q ≡ none) ⊎ (home_io.parents path homes q ≡ homes q)
home_made_keeps path homes q = elim (Option-cases (homes q)) [
  | inl e ↦ inl e
  | inr (node, e) ↦ inr (ap (made_at q) e ∙ sym e)
]

create_home_dir-Created_example :
    let (r, homes') = create_home_dir home_io 5000 5000 (some skel) (some home) (λ _. none) in
    Created home_io 5000 5000 none (some skel) r (homes' home) × Kept home (λ _. none) homes'
create_home_dir-Created_example =
    create_home_dir-Created home_io 5000 5000 home_made_keeps (some skel) home (λ _. none)

delete_home_dir-Deleted_example :
    let (r, homes') = delete_home_dir home_io (some home) (λ _. some skel) in
    Deleted (some skel) r (homes' home) × Elsewhere home (λ _. some skel) homes'
delete_home_dir-Deleted_example = delete_home_dir-Deleted home_io home (λ _. some skel)
