-- ===== src/Cleanup/Actions.antt =====
-- The actions of the deletion queue (cleanup.go): building the queue, resolving an action again,
-- and applying it. `none` is a panic: an index out of range.
pub mod Picks
use dup_detector.Prelude.{
  ℕ, zero, suc, ◌-◌, Bool, true, false, not, ◌&&◌, ◌||◌, Option, none, some, List, [], ◌∷◌, ◌++◌,
  map, if◌then◌else◌, ltb, length, get_elem?, select, has, text_eq, sort, larger_first, ◌>>=◌,
}
use dup_detector.Text.{Text}
use dup_detector.Files.{
  ScannedFile, DupGroup, TreeDupPair, OverlapItem, DirOverlapBlock, DirLookup, wasted_bytes, add64,
  signed_rank,
}
use dup_detector.Glob.{match_glob, select_by_glob}
use dup_detector.Overlap.{side}
use dup_detector.Cleanup.Cadence.{reorient_pair, reorient_block, reorient_files}
use dup_detector.Cleanup.Dispose.{
  Config, Disk, State, any_alive, dir_fully_deleted, dispose_file, delete_tree, delete_overlap_side,
  paths_of,
}

-- cleanupAction, each kind with the payload that is valid for it
pub data Action : Type 0 where
  tree : TreeDupPair → Action
  file_group : DupGroup → Action
  dir_overlap : DirOverlapBlock → Action

unfoldable pub waste : Action → ℕ
waste (tree p) = p.total_size
waste (dir_overlap b) = b.shared_bytes
waste (file_group g) = wasted_bytes g

unfoldable pub items : Action → List Text
unfolding side
items (tree p) = p.dir_a ∷ p.dir_b ∷ []
items (dir_overlap b) = paths_of (side true b.items) ++ paths_of (side false b.items)
items (file_group g) = paths_of g.files

unfoldable pub reorient_group : DupGroup → DupGroup
unfolding reorient_files
reorient_group g = record g { files = reorient_files g.files }

-- buildCleanupActions
unfoldable pub build_cleanup_actions :
    List TreeDupPair → List DirOverlapBlock → List DupGroup → List Action
unfolding reorient_pair reorient_block reorient_group sort waste signed_rank wasted_bytes
build_cleanup_actions tree_pairs blocks groups = sort (larger_first (λ a. signed_rank (waste a))) (
    map tree (map reorient_pair tree_pairs)
    ++ (map dir_overlap (map reorient_block blocks) ++ map file_group (map reorient_group groups)))

-- both sides of an item still have a live copy
unfoldable pub both_alive : List Text → OverlapItem → Bool
unfolding any_alive
both_alive deleted it = any_alive it.a_files deleted && any_alive it.b_files deleted

unfoldable pub sum_sizes : List OverlapItem → ℕ → ℕ
unfolding add64
sum_sizes [] total = total
sum_sizes (it ∷ items) total = sum_sizes items (add64 total it.size)

-- reresolveAction; `none` is a moot action
unfoldable pub reresolve_action : Action → DirLookup → List Text → Option Action
unfolding both_alive sum_sizes dir_fully_deleted
reresolve_action (tree p) lookup deleted =
    if dir_fully_deleted p.dir_a lookup deleted || dir_fully_deleted p.dir_b lookup deleted
    then none
    else some (tree p)
reresolve_action (file_group g) lookup deleted =
    let survivors = select (λ f. not (has f.path deleted)) g.files in
    if ltb (length survivors) 2 then none else some (file_group (record g { files = survivors }))
reresolve_action (dir_overlap b) lookup deleted =
    let live = select (both_alive deleted) b.items in
    if ltb (length live) 1
    then none
    else some (dir_overlap (record b { items = live; shared_bytes = sum_sizes live 0 }))

-- i, i + 1, … : n numbers
unfoldable pub range_from : ℕ → ℕ → List ℕ
range_from i zero = []
range_from i (suc n) = i ∷ range_from (suc i) n

module _ {W : Type 0} (disk : Disk W) (cfg : Config) where
  -- the body of the loop over a group's indices, with removeFile
  unfoldable pub remove_live : ScannedFile → State W → State W
  remove_live f s = if has f.path s.deleted then s else (dispose_file disk cfg f.path s).1

  unfoldable pub dispose_at : List ScannedFile → List ℕ → State W → Option (State W)
  unfolding remove_live
  dispose_at files [] s = some s
  dispose_at files (j ∷ js) s = elim (get_elem? files j) [
    | none ↦ none
    | some f ↦ dispose_at files js (remove_live f s)
  ]

  unfoldable pub delete_trees_at : List Text → List ℕ → DirLookup → State W → Option (State W)
  delete_trees_at dirs [] lookup s = some s
  delete_trees_at dirs (j ∷ js) lookup s = elim (get_elem? dirs j) [
    | none ↦ none
    | some dir ↦ delete_trees_at dirs js lookup (delete_tree disk cfg dir lookup s)
  ]

  -- applyIndices
  unfoldable pub apply_indices : Action → List ℕ → DirLookup → State W → Option (State W)
  unfolding dispose_at delete_trees_at items
  apply_indices (tree p) indices lookup s = delete_trees_at (items (tree p)) indices lookup s
  apply_indices (file_group g) indices lookup s = dispose_at g.files indices s
  apply_indices (dir_overlap b) indices lookup s = some s

  -- applyAuto
  unfoldable pub apply_auto : Action → DirLookup → State W → Option (State W)
  unfolding apply_indices range_from
  apply_auto (dir_overlap b) lookup s = some (delete_overlap_side disk cfg b false s)
  apply_auto (tree p) lookup s = apply_indices (tree p) (range_from 1 1) lookup s
  apply_auto (file_group g) lookup s =
      let n = length g.files in
      if ltb n 2 then some s else apply_indices (file_group g) (range_from 1 (n - 1)) lookup s

  -- applyGlobRemoval
  unfoldable pub apply_glob_removal : Action → DirLookup → State W → Option (State W)
  unfolding apply_indices
  apply_glob_removal (file_group g) lookup s =
      apply_indices (file_group g) (select_by_glob (paths_of g.files) cfg.remove_by_glob) lookup s
  apply_glob_removal (tree p) lookup s =
      let a_matches = match_glob cfg.remove_by_glob p.dir_a in
      let b_matches = match_glob cfg.remove_by_glob p.dir_b in
      if a_matches && not b_matches
      then some (delete_tree disk cfg p.dir_a lookup s)
      else if b_matches && not a_matches
      then some (delete_tree disk cfg p.dir_b lookup s)
      else some s
  apply_glob_removal (dir_overlap b) lookup s =
      let a_matches = match_glob cfg.remove_by_glob b.root_a in
      let b_matches = match_glob cfg.remove_by_glob b.root_b in
      if a_matches && not b_matches
      then some (delete_overlap_side disk cfg b true s)
      else if b_matches && not a_matches
      then some (delete_overlap_side disk cfg b false s)
      else some s
