-- ===== src/File/Update.antt =====
-- What `gum_file_update` leaves on disk.
use platform_upstream_gumd.Common.{◌≡◌, true, ◌⊎◌, none, some, List, if◌then◌else◌, arith}
use platform_upstream_gumd.Error.{Result, ok, err, map_ok, file_open}
use platform_upstream_gumd.File.{DbFiles, Io, UpdateCb, update}

-- What the callback writes when it is run on the source file: nothing if that is missing.
abbrev pub rewritten : {A : Type 0} → Io A → UpdateCb A → DbFiles A → Result (List A)
rewritten io cb f = elim f.source [ none ↦ err file_open | some entries ↦ cb io.put_ok entries ]

-- What an update that began at `f` has done. A failure leaves the source file as it was, and the
-- copy is gone, or the one that was there before. After a success the source file holds what the
-- callback wrote, the copy is gone, and the backup is the previous source file, if it was linked.
abbrev pub Outcome :
    {A : Type 0} → Io A → UpdateCb A → DbFiles A → Result (Unit {0}) × DbFiles A → Type 0
Outcome io cb f (err e, g) =
    (g.source ≡ f.source) × ((g.dup ≡ none) ⊎ (g.dup ≡ f.dup)) × ((g.old ≡ none) ⊎ (g.old ≡ f.old))
Outcome io cb f (ok _, g) =
    (map_ok some (rewritten io cb f) ≡ ok g.source)
    × (g.dup ≡ none)
    × (g.old ≡ (if io.linked then f.source else none))

-- Each update either replaces the whole file by what the callback wrote, with the previous file as the
-- backup if that could be linked and none else, or leaves the file alone.
pub update-Outcome :
    {A : Type 0} (io : Io A) (cb : UpdateCb A) (f : DbFiles A)
    → Outcome io cb f (update io (some cb) f)
unfolding update
update-Outcome io cb f = ground arith

-- An update succeeds whenever the callback and all system calls do.
update-succeeds :
    {A : Type 0} (io : Io A) (cb : UpdateCb A) (f : DbFiles A) {written : List A}
    → rewritten io cb f ≡ ok written
    → io.dup_opens ≡ true
    → io.labelled ≡ true
    → io.attributes_copied ≡ true
    → io.flushed ≡ true
    → io.renamed ≡ true
    → (update io (some cb) f).0 ≡ ok tt
unfolding update
update-succeeds io cb f h a b c d e = ground arith
