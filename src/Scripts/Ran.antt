-- ===== src/Scripts/Ran.antt =====
-- src/common/gum-utils.c: which scripts are run, and in which order.
use platform_upstream_gumd.Common.{
  ℕ, Bool, true, false, Option, some, List, [], ◌∷◌, Str, ◌≡◌, ap, ◌∙◌, inl, inr, Bool-cases,
  Option-cases,
}
use mathlib.Core.List.{Perm, Pairwise, append-nil}
use platform_upstream_gumd.Scripts.{
  Argv, Glib, prepend_sysroot, run_listed, run_opened, run_scripts_of, run_group_scripts, last_arg,
}
use platform_upstream_gumd.Scripts.Listed.{
  IsSorted, Inserts, is_readable, scripts_of, Listed, read_entries-Listed,
}
use platform_upstream_gumd.Scripts.Spawned.{Spawned, run_each-Spawned}

module _ (glib : Glib) where
  -- A directory that cannot be read has no script run; otherwise the scripts of `order` are.
  pub data Outcome (args : Argv) (script_dir : Str) (result : Bool × List Argv) : Type 0 where
    refused :
        is_readable glib script_dir ≡ false → result ≡ (false, []) → Outcome args script_dir result
    ran :
        (names order : List Str) (more : List Argv)
        → is_readable glib script_dir ≡ true
        → glib.names script_dir ≡ some names
        → IsSorted order
        → Perm order (scripts_of glib script_dir names)
        → result ≡ (true, more)
        → Spawned glib args order [] more
        → Outcome args script_dir result

  Listed-Outcome :
      (args : Argv) (script_dir : Str) (names : List Str)
      → glib.exists script_dir ≡ true
      → glib.is_dir script_dir ≡ true
      → glib.names script_dir ≡ some names
      → Listed glib script_dir names []
      → Outcome args script_dir (run_opened glib args script_dir (some names))
  unfolding run_opened run_listed
  Listed-Outcome args script_dir names x d o (inl (a, e)) =
      refused (simp (x, d, o, a)) (ap (run_listed glib args) e)
  Listed-Outcome args script_dir names x d o (inr (order, a, e, s, m)) =
      let (more, ran_more, spawned) = run_each-Spawned glib args order [] in
      ran names order more (simp (x, d, o, a)) o s (rw append-nil at m)
        (ap (run_listed glib args) e ∙ ap (λ l. (true, l)) ran_more) spawned

  module _ (sysroot : Option Str) (sdir : Str) where
    abbrev pub UserRun : Option Str → ℕ → ℕ → Option Str → Option Str → Bool × List Argv → Type 0
    UserRun (some u) uid gid (some h) usertype result =
        Outcome (u ∷ glib.unsigned uid ∷ glib.unsigned gid ∷ h ∷ last_arg glib usertype)
          (prepend_sysroot glib sysroot sdir) result
    UserRun _ uid gid _ usertype result = result ≡ (false, [])

    module _ (ins : Inserts glib) where
      -- The scripts that are run are the entries of the directory that are no directories and are
      -- there.
      pub run_scripts_of-Outcome :
          (args : Argv)
          → Outcome args (prepend_sysroot glib sysroot sdir) (run_scripts_of glib sysroot sdir args)
      unfolding run_scripts_of run_opened
      run_scripts_of-Outcome args =
          let dir = prepend_sysroot glib sysroot sdir in
          elim (Bool-cases (glib.exists dir)) [
            | inr x ↦ refused (simp x) (simp x)
            | inl x ↦ elim (Bool-cases (glib.is_dir dir)) [
              | inr d ↦ refused (simp (x, d)) (simp (x, d))
              | inl d ↦ elim (Option-cases (glib.names dir)) [
                | inl o ↦ refused (simp (x, d, o)) (simp (x, d, o))
                | inr (names, o) ↦
                    let listed = read_entries-Listed glib ins dir names [] Pairwise.nil in
                    rw (x, d, o) (Listed-Outcome args dir names x d o listed)
              ]
            ]
          ]

      pub run_group_scripts-Outcome :
          (groupname : Str) (gid uid : ℕ)
          → Outcome
              (groupname ∷ glib.unsigned gid ∷ glib.unsigned uid ∷ [])
              (prepend_sysroot glib sysroot sdir)
              (run_group_scripts glib sysroot sdir (some groupname) gid uid)
      unfolding run_group_scripts
      run_group_scripts-Outcome groupname gid uid =
          run_scripts_of-Outcome (groupname ∷ glib.unsigned gid ∷ glib.unsigned uid ∷ [])
