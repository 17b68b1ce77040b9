-- ===== src/TreeDup/Incremental/Checked.antt =====
-- AddGroups (tree_dup.go) as run (main.go) sets it up: CountUnder asks the file store for a count, and
-- remembers it (memoizeDirCounter); CoverageCheck streams the files of a directory from the store.
-- The pairs are verified one by one.
pub mod Agrees
use dup_detector.Prelude.{
  ℕ, Bool, not, Option, none, some, List, [], ◌∷◌, if◌then◌else◌, ◌==◌, sort, smaller_first,
  larger_first, Order,
}
use dup_detector.Prelude.Runs.{done, failed, panic}
use dup_detector.Text.{Text}
use dup_detector.Files.{ScannedFile, DupGroup, TreeDupPair, DirLookup, signed_rank}
use dup_detector.Store.{Database, stored_under, count_under_dir, coverage_and_size}
use dup_detector.TreeDup.{path_length}
use dup_detector.TreeDup.Stored.{memo_at}
use dup_detector.TreeDup.Incremental.{
  DirKey, Index, TreeDupState, index_groups, with_found, unchecked, marked, keep_new,
}

-- the map of memoizeDirCounter
abbrev pub Counts : Type 0
Counts = List (Text × ℕ)

-- the closure that memoizeDirCounter returns
unfoldable pub memoize_dir_counter : (Text → ℕ) → Text → Counts → ℕ × Counts
memoize_dir_counter count dir counts = elim (memo_at dir counts) [
  | some n ↦ (n, counts)
  | none ↦ (count dir, (dir, count dir) ∷ counts)
]

module _ (database : Database) (order : Order) (rows : List ScannedFile) where
  -- the closure `lookup`, which drops the error
  unfoldable pub lookup_stored : DirLookup
  lookup_stored dir = elim (stored_under database order rows dir) [
    | done files ↦ files
    | failed ↦ []
    | panic ↦ []
  ]

  -- the closure for CountUnder, which drops the error too
  unfoldable pub count_stored_under : Text → ℕ
  count_stored_under dir = elim (count_under_dir database order rows dir) [
    | done n ↦ n
    | failed ↦ 0
    | panic ↦ 0
  ]

  -- both checks of coverage, for directories of `n` files each
  unfoldable pub covered_pair : Index → Bool → DirKey → ℕ → Option TreeDupPair
  covered_pair index verified (a, b) n = elim (coverage_and_size database order rows a b index) [
    | done (ok, total) ↦
        if not ok then none else elim (coverage_and_size database order rows b a index) [
          | done (ok', total') ↦
              if not ok'
              then none
              else some (record {
                dir_a = a;
                dir_b = b;
                file_count = n;
                total_size = total;
                verified = verified;
              })
          | failed ↦ none
          | panic ↦ none
        ]
    | failed ↦ none
    | panic ↦ none
  ]

  -- verifyPair; the second count is only asked for where the first is not 0
  unfoldable pub verify_pair_checked : Index → Bool → DirKey → Counts → Option TreeDupPair × Counts
  unfolding memoize_dir_counter
  verify_pair_checked index verified (a, b) counts =
      let (na, counts_a) = memoize_dir_counter count_stored_under a counts in
      let (nb, counts_b) = memoize_dir_counter count_stored_under b counts_a in
      if na == 0
      then (none, counts_a)
      else if not (na == nb)
      then (none, counts_b)
      else (covered_pair index verified (a, b) na, counts_b)

  unfoldable pub verify_pairs_checked :
      Index → Bool → List DirKey → Counts → List TreeDupPair × Counts
  unfolding verify_pair_checked with_found
  verify_pairs_checked index verified [] counts = ([], counts)
  verify_pairs_checked index verified (k ∷ keys) counts =
      let (found, counts') = verify_pair_checked index verified k counts in
      let (rest, counts'') = verify_pairs_checked index verified keys counts' in
      (with_found found rest, counts'')

  -- AddGroups
  unfoldable pub add_groups_checked :
      List DupGroup → Bool → TreeDupState × Counts → List TreeDupPair × (TreeDupState × Counts)
  unfolding verify_pairs_checked
  add_groups_checked [] verified (s, counts) = ([], (s, counts))
  add_groups_checked (g ∷ groups) verified (s, counts) =
      let (found, counts') =
        verify_pairs_checked (index_groups (g ∷ groups) s.dup_index) verified
          (unchecked order (g ∷ groups) s) counts in
      let (kept, s') =
        keep_new (sort (smaller_first path_length) (order.visit _ found))
          (marked order (g ∷ groups) s) in
      (sort (larger_first (λ p. signed_rank p.total_size)) (order.visit _ kept), (s', counts'))
