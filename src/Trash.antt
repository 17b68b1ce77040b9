-- ===== src/Trash.antt =====
-- trash.go: moving a file to a trash. Where the trash of a path is (Place finds it), the package
-- path/filepath and the file calls are parameters; the loop over names runs on fuel, and `none` is fuel that ran out.
pub mod Names
pub mod Moves
pub mod Place
use dup_detector.Prelude.{
  ℕ, zero, suc, ◌+◌, ◌/◌, ◌%◌, Bool, true, false, not, ◌&&◌, Option, none, some, List, [], ◌∷◌,
  ◌++◌, map, if◌then◌else◌, ltb, ◌==◌, length, list_eq,
}
use dup_detector.Prelude.Runs.{Run, done, failed}
use dup_detector.Text.{Text, codes, slash, split, join}
use dup_detector.Text.Decimals.{decimal}
use dup_detector.Scan.{child_path}

-- what the code asks of the system: Rel, url.PathEscape of a segment, Abs and Base of a path, whether
-- Lstat says that a path is not there, and the time
pub record System : Type 0 where
  pub rel : Text → Text → Option Text
  pub escape : Text → Text
  pub abs : Text → Option Text
  pub base : Text → Text
  pub absent : Text → Bool
  pub now : Text

-- which file calls succeed; for a write also what is in the file when it fails, if it is there
pub record Calls : Type 0 where
  pub makes_dir : Text → Bool
  pub writes : Text → Bool
  pub left_over : Text → Option Text
  pub renames : Text → Text → Bool
  pub removes : Text → Bool

-- the records in the trash and the files moved there, the last one first
pub record TrashState : Type 0 where
  pub records : List (Text × Text)
  pub moved : List (Text × Text)

-- trashLocation
pub record TrashLocation : Type 0 where
  pub dir : Text
  pub top_dir : Text

abbrev pub info_name : Text → Text
info_name name = name ++ codes ".trashinfo"

-- the name that the loop tries after `i` others
unfoldable pub candidate : Text → ℕ → Text
unfolding decimal
candidate base zero = base
candidate base (suc i) = base ++ codes "." ++ decimal (suc i)

module _ (system : System) where
  -- urlEncodePath
  unfoldable pub url_encode_path : Text → Text
  unfolding split join
  url_encode_path p = join (map system.escape (split p slash)) slash

  -- recordPath
  unfoldable pub record_path : TrashLocation → Text → Text
  unfolding url_encode_path
  record_path l abs =
      if list_eq l.top_dir [] then url_encode_path abs else elim (system.rel l.top_dir abs) [
        | none ↦ url_encode_path abs
        | some rel ↦ url_encode_path rel
      ]

  -- neither the file nor its record is there
  unfoldable pub is_free : Text → Text → Text → Bool
  is_free files_dir info_dir name =
      system.absent (child_path files_dir name)
      && system.absent (child_path info_dir (info_name name))

  -- the loop over the names, from the i-th on, on fuel
  unfoldable pub pick_name : ℕ → Text → Text → Text → ℕ → Option Text
  unfolding candidate is_free
  pick_name zero files_dir info_dir base i = none
  pick_name (suc fuel) files_dir info_dir base i =
      let next = pick_name fuel files_dir info_dir base (suc i) in
      if is_free files_dir info_dir (candidate base i) then some (candidate base i) else next

  -- the text of a record
  unfoldable pub record_text : TrashLocation → Text → Text
  unfolding record_path
  record_text l abs =
      codes "[Trash Info]"
      ++ 10 ∷ codes "Path="
      ++ record_path l abs
      ++ 10 ∷ codes "DeletionDate="
      ++ system.now
      ++ 10 ∷ []

  module _ (calls : Calls) where
    -- the record, and then the move, under a name that was picked
    unfoldable pub move_under : TrashLocation → Text → Text → TrashState → Run Text × TrashState
    unfolding record_text
    move_under l abs name st =
        let dest = child_path (child_path l.dir (codes "files")) name in
        let info = child_path (child_path l.dir (codes "info")) (info_name name) in
        let written = record st { records = (info, record_text l abs) ∷ st.records } in
        if not (calls.writes info)
        then elim (calls.left_over info) [
          | none ↦ (failed, st)
          | some text ↦ (failed, record st { records = (info, text) ∷ st.records })
        ]
        else if not (calls.renames abs dest)
        then (failed, if calls.removes info then st else written)
        else (done dest, record written { moved = (abs, dest) ∷ st.moved })

    -- trashFile, where trashLocationFor comes to this location or fails
    unfoldable pub trash_file :
        ℕ → (Text → Option TrashLocation) → Text → TrashState → Option (Run Text × TrashState)
    unfolding pick_name move_under
    trash_file fuel location path st = elim (system.abs path) [
      | none ↦ some (failed, st)
      | some abs ↦ elim (location abs) [
        | none ↦ some (failed, st)
        | some l ↦
            let files_dir = child_path l.dir (codes "files") in
            let info_dir = child_path l.dir (codes "info") in
            if not (calls.makes_dir files_dir)
            then some (failed, st)
            else if not (calls.makes_dir info_dir)
            then some (failed, st)
            else elim (pick_name fuel files_dir info_dir (system.base abs) 0) [
              | none ↦ none
              | some name ↦ some (move_under l abs name st)
            ]
      ]
    ]
