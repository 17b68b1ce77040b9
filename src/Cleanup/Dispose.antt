-- ===== src/Cleanup/Dispose.antt =====
-- The deletion primitives of cleanup.go, over the disk that they call. The world `W` is what the
-- operating system keeps: each call returns it changed. Reports to stderr are not modelled.
pub mod Laws
pub mod Sides
use dup_detector.Prelude.{
  ℕ, zero, suc, Bool, true, false, not, Option, none, some, List, [], ◌∷◌, ◌++◌, map, if◌then◌else◌,
  has, text_eq, any, ◌||◌, ◌&&◌,
}
use mathlib.Core.List.{reverse}
use dup_detector.Text.{Text, slash}
use dup_detector.Files.{ScannedFile, OverlapItem, DirOverlapBlock, DirLookup}

-- The options that a deletion reads.
pub record Config : Type 0 where
  pub dry_run : Bool
  pub trash : Bool
  pub remove_by_glob : Text

-- os.Remove and trashFile tell whether they succeeded; os.ReadDir lists the names with IsDir, or
-- fails. No path of more than `path_max` bytes can be read.
pub record Disk (W : Type 0) : Type 0 where
  pub remove : Text → W → Bool × W
  pub trash_file : Text → W → Bool × W
  pub read_dir : Text → W → Option (List (Text × Bool))
  pub path_max : ℕ

-- `deleted` is the map of disposed paths, which only ever holds the value true.
pub record State (W : Type 0) : Type 0 where
  pub deleted : List Text
  pub world : W

abbrev pub paths_of : List ScannedFile → List Text
paths_of files = map (λ f. f.path) files

-- anyAlive
unfoldable pub any_alive : List ScannedFile → List Text → Bool
any_alive files deleted = any (λ f. not (has f.path deleted)) files

-- dirFullyDeleted
unfoldable pub dir_fully_deleted : Text → DirLookup → List Text → Bool
unfolding any_alive
dir_fully_deleted dir lookup deleted = elim (lookup dir) [
  | [] ↦ false
  | f ∷ files ↦ not (any_alive (f ∷ files) deleted)
]

module _ {W : Type 0} where
  -- what a call that returned (ok, world) leaves: the path is recorded if the call succeeded
  abbrev pub record_if_ok : Text → State W → Bool × W → Bool × State W
  record_if_ok path s (ok, w) =
      (ok, record { deleted = if ok then path ∷ s.deleted else s.deleted; world = w })

  module _ (disk : Disk W) (cfg : Config) where
    -- disposeFile
    unfoldable pub dispose_file : Text → State W → Bool × State W
    dispose_file path s =
        if has path s.deleted
        then (false, s)
        else if cfg.dry_run
        then (true, record s { deleted = path ∷ s.deleted })
        else if cfg.trash
        then record_if_ok path s (disk.trash_file path s.world)
        else record_if_ok path s (disk.remove path s.world)

    -- the loops `for _, f := range files { disposeFile(f.Path, …) }`
    unfoldable pub dispose_each : List ScannedFile → State W → State W
    dispose_each [] s = s
    dispose_each (f ∷ files) s = dispose_each files (dispose_file f.path s).1

    walk_entries : (Text → List Text) → Text → List (Text × Bool) → List Text
    walk_entries below root [] = []
    walk_entries below root ((name, is_dir) ∷ entries) =
        let rest = walk_entries below root entries in
        let sub = root ++ slash ∷ name in if is_dir then sub ∷ (below sub ++ rest) else rest

    -- walkDirs: the directories below `root`, each before those below it
    unfoldable pub walk_dirs : ℕ → W → Text → List Text
    unfolding walk_entries
    walk_dirs zero w root = []
    walk_dirs (suc fuel) w root = elim (disk.read_dir root w) [
      | none ↦ []
      | some entries ↦ walk_entries (walk_dirs fuel w) root entries
    ]

    remove_each : List Text → W → W
    remove_each [] w = w
    remove_each (p ∷ ps) w = remove_each ps (disk.remove p w).1

    -- pruneEmptyDirs: bottom-up, the root last; os.Remove leaves a directory that is not empty
    unfoldable pub prune_empty_dirs : Text → W → W
    unfolding walk_dirs remove_each
    prune_empty_dirs root w =
        (disk.remove root (remove_each (reverse (walk_dirs (suc disk.path_max) w root)) w)).1

    -- deleteTree
    unfoldable pub delete_tree : Text → DirLookup → State W → State W
    unfolding prune_empty_dirs
    delete_tree dir lookup s =
        let s' = dispose_each (lookup dir) s in
        if not cfg.dry_run && not cfg.trash
        then record s' { world = prune_empty_dirs dir s'.world }
        else s'

    -- one item of deleteOverlapSide: nothing, if the opposite side is already gone
    unfoldable pub delete_item_side : Bool → OverlapItem → State W → State W
    delete_item_side delete_a it s =
        let del = if delete_a then it.a_files else it.b_files in
        let keep = if delete_a then it.b_files else it.a_files in
        if any_alive keep s.deleted then dispose_each del s else s

    unfoldable pub delete_items_side : Bool → List OverlapItem → State W → State W
    delete_items_side delete_a [] s = s
    delete_items_side delete_a (it ∷ items) s =
        delete_items_side delete_a items (delete_item_side delete_a it s)

    -- deleteOverlapSide
    unfoldable pub delete_overlap_side : DirOverlapBlock → Bool → State W → State W
    delete_overlap_side b delete_a s = delete_items_side delete_a b.items s
