-- ===== src/Trash/Moves.antt =====
-- What trashFile (trash.go) leaves, whether it succeeds or fails.
use dup_detector.Prelude.{
  ℕ, ◌<◌, ◌≡◌, refl, ◌⊎◌, inl, inr, true, Option, none, some, ◌∷◌, Bool-cases,
}
use dup_detector.Prelude.Runs.{Run, done, failed}
use dup_detector.Text.{Text, codes}
use dup_detector.Scan.{child_path}
use dup_detector.Trash.{
  System, Calls, TrashState, TrashLocation, info_name, candidate, is_free, record_text, move_under,
  trash_file,
}
use dup_detector.Trash.Names.{pick_name-first}

module _ (system : System) (calls : Calls) where
  -- A write that fails leaves no file, and a record can be removed.
  pub record IsClean : Type 0 where
    pub nothing_left : (info : Text) → calls.left_over info ≡ none
    pub removable : (info : Text) → calls.removes info ≡ true

  -- The file was moved to a name in the trash that was not taken, after its record was written.
  pub record IsTrashed (l : TrashLocation) (abs : Text) (st : TrashState) (dest : Text)
      (st' : TrashState) : Type 0 where
    pub name : Text
    pub at_name : dest ≡ child_path (child_path l.dir (codes "files")) name
    pub was_free :
        is_free system (child_path l.dir (codes "files")) (child_path l.dir (codes "info")) name
        ≡ true
    pub recorded :
        st'.records
        ≡ (child_path (child_path l.dir (codes "info")) (info_name name), record_text system l abs)
          ∷ st.records
    pub now_moved : st'.moved ≡ (abs, dest) ∷ st.moved

  abbrev pub IsOutcome : TrashLocation → Text → TrashState → Run Text × TrashState → Type 0
  IsOutcome l abs st out =
      (out ≡ (failed, st)) ⊎ ((dest : Text) × (out.0 ≡ done dest) × IsTrashed l abs st dest out.1)

  move_under-IsOutcome :
      (l : TrashLocation) (abs name : Text) (st : TrashState)
      → IsClean
      → is_free system (child_path l.dir (codes "files")) (child_path l.dir (codes "info")) name
        ≡ true
      → IsOutcome l abs st (move_under system calls l abs name st)
  unfolding move_under
  move_under-IsOutcome l abs name st clean free =
      let dest = child_path (child_path l.dir (codes "files")) name in
      let info = child_path (child_path l.dir (codes "info")) (info_name name) in
      elim (Bool-cases (calls.writes info)) [
        | inr a ↦ inl (rw (move_under, a, clean.nothing_left info) refl)
        | inl a ↦ elim (Bool-cases (calls.renames abs dest)) [
          | inr b ↦ inl (rw (move_under, a, b, clean.removable info) refl)
          | inl b ↦ inr (
            dest,
            rw (move_under, a, b) refl,
            record {
              name = name;
              at_name = refl;
              was_free = free;
              recorded = rw (move_under, a, b) refl;
              now_moved = rw (move_under, a, b) refl;
            },
          )
        ]
      ]

  -- Where some name in the trash is free, and no failed call leaves a file behind, a file goes to the
  -- trash with its record written and nothing overwritten, or the trash stays as it was; the loop over
  -- the names ends.
  pub trash_file-IsOutcome :
      (fuel k : ℕ) (location : Text → Option TrashLocation) (path abs : Text) (l : TrashLocation)
      (st : TrashState)
      → IsClean
      → system.abs path ≡ some abs
      → location abs ≡ some l
      → k < fuel
      → is_free system
          (child_path l.dir (codes "files"))
          (child_path l.dir (codes "info"))
          (candidate (system.base abs) k)
        ≡ true
      → (out : Run Text × TrashState) × (trash_file system calls fuel location path st ≡ some out)
        × IsOutcome l abs st out
  unfolding trash_file
  trash_file-IsOutcome fuel k location path abs l st clean is_abs at bound free =
      let files_dir = child_path l.dir (codes "files") in
      let info_dir = child_path l.dir (codes "info") in
      let (j, q, e, f, before) =
        pick_name-first system files_dir info_dir (system.base abs) fuel k bound free in
      elim (Bool-cases (calls.makes_dir files_dir)) [
        | inr a ↦ ((failed, st), rw (trash_file, is_abs, at, a) refl, inl refl)
        | inl a ↦ elim (Bool-cases (calls.makes_dir info_dir)) [
          | inr b ↦ ((failed, st), rw (trash_file, is_abs, at, a, b) refl, inl refl)
          | inl b ↦ (
            move_under system calls l abs (candidate (system.base abs) j) st,
            rw (trash_file, is_abs, at, a, b, e) refl,
            move_under-IsOutcome l abs (candidate (system.base abs) j) st clean f,
          )
        ]
      ]
