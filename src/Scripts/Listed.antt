-- ===== src/Scripts/Listed.antt =====
-- src/common/gum-utils.c: the first loop of `_run_scripts`, which lists the scripts.
use platform_upstream_gumd.Common.{
  Bool, true, false, not, ◌&&◌, ◌||◌, Option, none, some, List, [], ◌∷◌, ◌++◌, Str, ◌≡◌, refl, ap,
  ◌∙◌, ◌⊎◌, inl, inr, if◌then◌else◌, Bool-cases, Option-cases,
}
use mathlib.Core.List.{Perm, Pairwise, perm_middle}
use mathlib.Core.List.Perm
use platform_upstream_gumd.Scripts.{
  directory, other, Glib, script_sort, is_dots, listed_entry, read_entry, read_entries,
}

-- In the order of `strcmp`.
abbrev pub IsSorted : List Str → Type 0
IsSorted = Pairwise (λ a b. script_sort a b ≡ true)

-- What GLib documents of `g_sequence_insert_sorted`: into a sequence in order, the item is put at
-- its place.
pub record Inserts (glib : Glib) : Type 0 where
  pub inserted :
      (x : Str) (l : List Str) → IsSorted l → Perm (glib.insert_sorted script_sort x l) (x ∷ l)
  pub in_order :
      (x : Str) (l : List Str) → IsSorted l → IsSorted (glib.insert_sorted script_sort x l)

module _ (glib : Glib) where
  abbrev pub is_script : Str → Str → Bool
  is_script script_dir name =
      not (is_dots name)
      && elim (glib.lstat (glib.build_filename script_dir name)) [ some other ↦ true | _ ↦ false ]

  abbrev pub can_read : Str → Str → Bool
  can_read script_dir name =
      is_dots name
      || elim (glib.lstat (glib.build_filename script_dir name)) [ none ↦ false | some _ ↦ true ]

  -- The paths of the entries of a directory that are no directories.
  abbrev pub scripts_of : Str → List Str → List Str
  scripts_of script_dir [] = []
  scripts_of script_dir (name ∷ rest) =
      let more = scripts_of script_dir rest in
      if is_script script_dir name then glib.build_filename script_dir name ∷ more else more

  abbrev pub all_read : Str → List Str → Bool
  all_read script_dir [] = true
  all_read script_dir (name ∷ rest) = can_read script_dir name && all_read script_dir rest

  abbrev pub is_readable : Str → Bool
  is_readable script_dir =
      glib.exists script_dir
      && glib.is_dir script_dir
      && elim (glib.names script_dir) [ none ↦ false | some names ↦ all_read script_dir names ]

  data ReadEntry (script_dir name : Str) (scripts : List Str) : Type 0 where
    failed :
        can_read script_dir name ≡ false
        → read_entry glib script_dir name scripts ≡ none
        → ReadEntry script_dir name scripts
    skipped :
        can_read script_dir name ≡ true
        → is_script script_dir name ≡ false
        → read_entry glib script_dir name scripts ≡ some scripts
        → ReadEntry script_dir name scripts
    inserted :
        can_read script_dir name ≡ true
        → is_script script_dir name ≡ true
        → read_entry glib script_dir name scripts
          ≡ some (glib.insert_sorted script_sort (glib.build_filename script_dir name) scripts)
        → ReadEntry script_dir name scripts

  lstat-cases :
      (path : Str)
      → (glib.lstat path ≡ none)
        ⊎ (glib.lstat path ≡ some directory)
        ⊎ (glib.lstat path ≡ some other)
  lstat-cases path = elim (Option-cases (glib.lstat path)) [
    | inl e ↦ inl e
    | inr (directory, e) ↦ inr (inl e)
    | inr (other, e) ↦ inr (inr e)
  ]

  read_entry-cases :
      (script_dir name : Str) (scripts : List Str) → ReadEntry script_dir name scripts
  unfolding read_entry listed_entry
  read_entry-cases script_dir name scripts = elim (Bool-cases (is_dots name)) [
    | inl d ↦ skipped (simp d) (simp d) (simp d)
    | inr d ↦ elim (lstat-cases (glib.build_filename script_dir name)) [
      | inl l ↦ failed (simp (d, l)) (simp (d, l))
      | inr (inl l) ↦ skipped (simp (d, l)) (simp (d, l)) (simp (d, l))
      | inr (inr l) ↦ inserted (simp (d, l)) (simp (d, l)) (simp (d, l))
    ]
  ]

  abbrev read_on : Str → List Str → Option (List Str) → Option (List Str)
  read_on script_dir rest o = elim o [
    | none ↦ none
    | some more ↦ read_entries glib script_dir rest more
  ]

  -- How the first loop ends.
  abbrev pub Listed : Str → List Str → List Str → Type 0
  Listed script_dir names scripts =
      (all_read script_dir names ≡ false) × (read_entries glib script_dir names scripts ≡ none)
      ⊎ (out : List Str) × (all_read script_dir names ≡ true)
        × (read_entries glib script_dir names scripts ≡ some out)
        × IsSorted out
        × Perm out (scripts_of script_dir names ++ scripts)

  module _ (ins : Inserts glib) where
    pub read_entries-Listed :
        (script_dir : Str) (names scripts : List Str)
        → IsSorted scripts
        → Listed script_dir names scripts
    unfolding read_entries
    read_entries-Listed script_dir [] scripts s = inr (scripts, refl, refl, s, Perm.rfl)
    read_entries-Listed script_dir (name ∷ rest) scripts s =
        elim (read_entry-cases script_dir name scripts) [
          | failed r q ↦ inl (simp r, ap (read_on script_dir rest) q)
          | skipped r p q ↦ elim (read_entries-Listed script_dir rest scripts s) [
            | inl (a, e) ↦ inl (simp (r, a), ap (read_on script_dir rest) q ∙ e)
            | inr (out, a, e, t, m) ↦
                inr (out, simp (r, a), ap (read_on script_dir rest) q ∙ e, t, rw p m)
          ]
          | inserted r p q ↦
              let path = glib.build_filename script_dir name in
              let more = glib.insert_sorted script_sort path scripts in
              elim (read_entries-Listed script_dir rest more (ins.in_order path scripts s)) [
                | inl (a, e) ↦ inl (simp (r, a), ap (read_on script_dir rest) q ∙ e)
                | inr (out, a, e, t, m) ↦ inr (
                  out,
                  simp (r, a),
                  ap (read_on script_dir rest) q ∙ e,
                  t,
                  rw p (
                      Perm.trans m (
                        Perm.trans
                          (Perm.append_left (scripts_of script_dir rest)
                            (ins.inserted path scripts s))
                          (perm_middle (scripts_of script_dir rest) scripts))),
                )
              ]
        ]
