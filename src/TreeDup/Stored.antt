-- ===== src/TreeDup/Stored.antt =====
-- store_tree.go: tree pairs over the file store. A directory's count and whether the disk holds more
-- than the store are remembered in a checker. The walk of the disk, the hash of a file and the state
-- that hashing keeps are parameters; where more directories than the cap are alike, the note is not
-- modelled.
pub mod Memo
pub mod Sound
pub mod Rows
pub mod Content
use dup_detector.Prelude.{
  ℕ, zero, suc, ◌+◌, Bool, true, false, not, ◌&&◌, ◌||◌, Option, none, some, List, [], ◌∷◌, ◌++◌,
  if◌then◌else◌, ltb, ◌==◌, length, list_eq, sort, larger_first, Order,
}
use dup_detector.Prelude.Runs.{Run, done, failed, panic, ◌>>=◌}
use dup_detector.Text.{Text}
use dup_detector.Files.{ScannedFile, ScanConfig, TreeDupPair, DirLookup, signed_rank}
use dup_detector.Store.{Database, stored_under, count_under_dir, by_path}
use dup_detector.TreeDup.{remove_sub_pairs_fast, relative_files, slice_from, all_match}
use dup_detector.TreeDup.ByHash.{candidate_pairs}

-- dirStoreChecker: its two maps
pub record DirStoreChecker : Type 0 where
  pub stored : List (Text × ℕ)
  pub incomplete : List (Text × Bool)

unfoldable pub new_dir_store_checker : DirStoreChecker
new_dir_store_checker = record { stored = []; incomplete = [] }

unfoldable pub memo_at : {V : Type 0} → Text → List (Text × V) → Option V
memo_at dir [] = none
memo_at dir ((k, v) ∷ memo) = let rest = memo_at dir memo in if list_eq k dir then some v else rest

-- some option that drops files is set
unfoldable pub is_filtered : ScanConfig → Bool
unfolding signed_rank
is_filtered cfg =
    ltb (signed_rank 0) (signed_rank cfg.min_size)
    || ltb (signed_rank 0) (signed_rank cfg.max_size)
    || ltb 0 (length cfg.rules)

abbrev pub of_option : {A : Type 0} → Option A → Run A
of_option none = panic
of_option (some a) = done a

-- a pair that is kept goes before the rest
abbrev pub kept_before : TreeDupPair → Run Bool → Run (List TreeDupPair) → Run (List TreeDupPair)
kept_before p ok rest = ok >>= λ b. rest >>= λ out. done (if b then p ∷ out else out)

-- the comparison of the files of two directories
unfoldable pub compare_files : Text → Text → List ScannedFile → List ScannedFile → Run Bool
unfolding relative_files all_match
compare_files dir_a dir_b files_a files_b =
    if length files_a == 0 || not (length files_a == length files_b)
    then done false
    else of_option (relative_files (length dir_b + 1) files_b []) >>= λ m.
        of_option (all_match (length dir_a + 1) m files_a)

module _ (database : Database) (order : Order) (rows : List ScannedFile)
    (walk_count : Text → Option ℕ) where
  -- what countStored does where the map has no entry
  unfoldable pub count_fresh : Text → Run ℕ → DirStoreChecker → Run ℕ × DirStoreChecker
  count_fresh dir (done n) c = (done n, record c { stored = (dir, n) ∷ c.stored })
  count_fresh dir failed c = (failed, c)
  count_fresh dir panic c = (panic, c)

  -- countStored
  unfoldable pub count_stored : Text → DirStoreChecker → Run ℕ × DirStoreChecker
  unfolding count_fresh
  count_stored dir c = elim (memo_at dir c.stored) [
    | some n ↦ (done n, c)
    | none ↦ count_fresh dir (count_under_dir database order rows dir) c
  ]

  -- true unless both counts are known and equal
  unfoldable pub differs : Run ℕ → Option ℕ → Bool
  differs (done stored) (some real) = not (real == stored)
  differs (done stored) none = true
  differs failed real = true
  differs panic real = true

  -- incompleteDir
  unfoldable pub incomplete_dir : Text → DirStoreChecker → Bool × DirStoreChecker
  unfolding count_stored differs
  incomplete_dir dir c = elim (memo_at dir c.incomplete) [
    | some v ↦ (v, c)
    | none ↦
        let (counted, c') = count_stored dir c in
        let res = differs counted (walk_count dir) in
        (res, record c' { incomplete = (dir, res) ∷ c'.incomplete })
  ]

  unfoldable pub compare_stored : Text → Text → Run Bool
  unfolding stored_under compare_files
  compare_stored dir_a dir_b = stored_under database order rows dir_a >>= λ files_a.
      stored_under database order rows dir_b >>= λ files_b.
      compare_files dir_a dir_b files_a files_b

  -- the counts, and then the files
  unfoldable pub compare_second :
      Text → Text → ℕ → Run ℕ × DirStoreChecker → Run Bool × DirStoreChecker
  unfolding compare_stored
  compare_second dir_a dir_b na (done nb, c) =
      (if not (na == nb) then done false else compare_stored dir_a dir_b, c)
  compare_second dir_a dir_b na (failed, c) = (failed, c)
  compare_second dir_a dir_b na (panic, c) = (panic, c)

  unfoldable pub compare_first : Text → Text → Run ℕ × DirStoreChecker → Run Bool × DirStoreChecker
  unfolding compare_second count_stored
  compare_first dir_a dir_b (done na, c) =
      if na == 0 then (done false, c) else compare_second dir_a dir_b na (count_stored dir_b c)
  compare_first dir_a dir_b (failed, c) = (failed, c)
  compare_first dir_a dir_b (panic, c) = (panic, c)

  -- verifyTreePairMtimeStore
  unfoldable pub verify_tree_pair_mtime_store :
      Bool → Text → Text → DirStoreChecker → Run Bool × DirStoreChecker
  unfolding incomplete_dir compare_first count_stored
  verify_tree_pair_mtime_store filtered dir_a dir_b c =
      let (out_a, c_a) = incomplete_dir dir_a c in
      let (out_b, c_b) = incomplete_dir dir_b c_a in
      if not filtered
      then compare_first dir_a dir_b (count_stored dir_a c)
      else if out_a
      then (done false, c_a)
      else if out_b
      then (done false, c_b)
      else compare_first dir_a dir_b (count_stored dir_a c_b)

  -- verifyPairsMtimeStore: an error ends the loop
  unfoldable pub verify_pairs_mtime_store :
      Bool → List TreeDupPair → DirStoreChecker → Run (List TreeDupPair)
  unfolding verify_tree_pair_mtime_store
  verify_pairs_mtime_store filtered [] c = done []
  verify_pairs_mtime_store filtered (p ∷ pairs) c =
      let (ok, c') = verify_tree_pair_mtime_store filtered p.dir_a p.dir_b c in
      kept_before p ok (verify_pairs_mtime_store filtered pairs c')

  -- FindTreeDupsByHashStore; the buckets are those of FindTreeDupsByHash
  unfoldable pub find_tree_dups_by_hash_store : ScanConfig → Run (List TreeDupPair)
  unfolding is_filtered candidate_pairs remove_sub_pairs_fast verify_pairs_mtime_store
      new_dir_store_checker sort by_path
  find_tree_dups_by_hash_store cfg =
      if not database.totals
      then failed
      else if not database.walks
      then failed
      else (verify_pairs_mtime_store (is_filtered cfg)
            (remove_sub_pairs_fast order
              (candidate_pairs order (sort by_path (order.visit _ rows))))
            new_dir_store_checker
          >>= λ pairs.
              done (sort (larger_first (λ p. signed_rank p.total_size)) (order.visit _ pairs)))

-- bMap: relative path and file, the last write to a path first
unfoldable pub relative_rows :
    ℕ → List ScannedFile → List (Text × ScannedFile) → Run (List (Text × ScannedFile))
unfolding slice_from
relative_rows n [] m = done m
relative_rows n (f ∷ files) m =
    of_option (slice_from n f.path) >>= λ rel. relative_rows n files ((rel, f) ∷ m)

module _ {S : Type 0} (hash : ScannedFile → S → Option Text × S) where
  -- a file and the one found for its path: sizes, then hashes
  unfoldable pub same_content : ScannedFile → Option ScannedFile → S → Bool × S
  same_content fa none s = (false, s)
  same_content fa (some fb) s =
      let (ha, s') = hash fa s in
      let (hb, s'') = hash fb s' in
      if not (fa.size == fb.size) then (false, s) else elim ha [
        | none ↦ (false, s')
        | some h ↦ elim hb [ none ↦ (false, s'') | some k ↦ (list_eq h k, s'') ]
      ]

  unfoldable pub all_same : ℕ → List (Text × ScannedFile) → List ScannedFile → S → Run Bool × S
  unfolding slice_from same_content
  all_same n m [] s = (done true, s)
  all_same n m (f ∷ files) s = elim (slice_from n f.path) [
    | none ↦ (panic, s)
    | some rel ↦
        let (ok, s') = same_content f (memo_at rel m) s in
        let rest = all_same n m files s' in if ok then rest else (done false, s')
  ]

  -- treePairContentEqual
  unfoldable pub tree_pair_content_equal : DirLookup → TreeDupPair → S → Run Bool × S
  unfolding relative_rows all_same
  tree_pair_content_equal lookup p s =
      let files_a = lookup p.dir_a in
      let files_b = lookup p.dir_b in
      if length files_a == 0 || not (length files_a == length files_b)
      then (done false, s)
      else elim (relative_rows (length p.dir_b + 1) files_b []) [
        | done m ↦ all_same (length p.dir_a + 1) m files_a s
        | failed ↦ (failed, s)
        | panic ↦ (panic, s)
      ]

  -- VerifyTreePairsByContent
  unfoldable pub verify_tree_pairs_by_content :
      DirLookup → List TreeDupPair → S → Run (List TreeDupPair)
  unfolding tree_pair_content_equal
  verify_tree_pairs_by_content lookup [] s = done []
  verify_tree_pairs_by_content lookup (p ∷ pairs) s =
      let (ok, s') = tree_pair_content_equal lookup p s in
      kept_before (record p { verified = true }) ok (verify_tree_pairs_by_content lookup pairs s')
