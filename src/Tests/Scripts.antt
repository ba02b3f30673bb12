-- ===== src/Tests/Scripts.antt =====
-- A directory of scripts with a directory in it and a script that is away.
use platform_upstream_gumd.Common.{
  Bool, true, not, none, some, List, [], ◌∷◌, ◌++◌, Str, codes, ◌≡◌, refl, str_eq, if◌then◌else◌,
}
use mathlib.Core.List.{Perm, Mem}
use mathlib.Core.List.Perm
use platform_upstream_gumd.Scripts.{Argv, directory, other, Glib, script_sort, run_user_scripts}

unfoldable put_sorted : (Str → Str → Bool) → Str → List Str → List Str
put_sorted cmp x [] = x ∷ []
put_sorted cmp x (y ∷ ys) =
    let rest = put_sorted cmp x ys in if cmp x y then x ∷ y ∷ ys else y ∷ rest

abbrev glib : Glib
glib = record {
  build_filename = λ dir name. dir ++ (47 ∷ name);
  exists = λ path. true;
  is_dir = λ path. true;
  names = λ path.
      some (codes "." ∷ codes "20-mail" ∷ codes "old" ∷ codes "10-quota" ∷ codes "15-gone" ∷ []);
  lstat = λ path. if str_eq path (codes "/etc/old") then some directory else some other;
  insert_sorted = put_sorted;
  present = λ ran path. not (str_eq path (codes "/etc/15-gone"));
  unsigned = λ n. n ∷ [];
}

abbrev argv : Str → Argv
argv script = script ∷ codes "alice" ∷ (100 ∷ []) ∷ (101 ∷ []) ∷ codes "/home" ∷ []

ran_in_order :
    run_user_scripts glib none
      (codes "/etc")
      (some (codes "alice"))
      100
      101
      (some (codes "/home"))
      none
    ≡ (true, argv (codes "/etc/10-quota") ∷ argv (codes "/etc/20-mail") ∷ [])
unfolding run_user_scripts put_sorted str_eq
ran_in_order = refl

abbrev IsBelow : Str → List Str → Type 0
IsBelow x l = (z : Str) → Mem z l → script_sort x z ≡ true
