-- ===== src/Detect.antt =====
-- detect.go and store_detect.go: duplicate groups by size and mtime, and by content hash. The
-- files come from two lists or from the rows of the scan store. The hash of a file's content is a
-- parameter: `none` is a read error. Progress reports are not modelled.
pub mod Mtime
pub mod Reports
pub mod Checksum
pub mod Receivers
use dup_detector.Prelude.{
  flat_map, ℕ, zero, suc, Bool, true, false, not, ◌&&◌, Option, none, some, List, [], ◌∷◌, ◌++◌,
  map, if◌then◌else◌, ltb, ◌==◌, length, any, select, has, text_eq, nat_eq, list_eq, sort,
  larger_first, Order,
}
use dup_detector.Prelude.Grouping.{group, value_at}
use dup_detector.Prelude.Runs.{Run, done, failed, ◌>>=◌}
use dup_detector.Text.{Text}
use dup_detector.Files.{ScannedFile, DupGroup, signed_rank}

-- spansMultipleSources
unfoldable pub spans_multiple_sources : List ScannedFile → Bool
spans_multiple_sources [] = false
spans_multiple_sources (f ∷ files) = any (λ g. not (g.source == f.source)) files

-- at least two files, and of two roots if only such groups are wanted
unfoldable pub is_candidate : Bool → List ScannedFile → Bool
unfolding spans_multiple_sources
is_candidate two_dir files =
    not (ltb (length files) 2) && not (two_dir && not (spans_multiple_sources files))

-- the loops that set Source
unfoldable pub with_source : ℕ → List ScannedFile → List ScannedFile
with_source n files = map {A = ScannedFile} (λ f. record f { source = n }) files

-- the map of GroupBySize; the loop that keeps the sizes of two or more files is on the entries
unfoldable pub group_by_size : List ScannedFile → List (ℕ × List ScannedFile)
group_by_size files = select (λ e. not (ltb (length e.1) 2)) (group (map (λ f. (f.size, f)) files))

module _ (order : Order) where
  -- groupByMtime
  unfoldable pub group_by_mtime : List ScannedFile → ℕ → List DupGroup
  group_by_mtime files size =
      map (λ e. record { size = size; hash = []; files = e.1 })
        (order.visit _ (group (map (λ f. (f.mod_time, f)) files)))

  -- the body of the loop of MtimeDups over the sizes
  unfoldable pub mtime_groups : Bool → ℕ × List ScannedFile → List DupGroup
  unfolding group_by_mtime is_candidate
  mtime_groups two_dir (size, candidates) =
      if two_dir && not (spans_multiple_sources candidates)
      then []
      else select (λ g. is_candidate two_dir g.files) (group_by_mtime candidates size)

  -- sort.Slice by size, largest first
  unfoldable pub largest_first : List DupGroup → List DupGroup
  unfolding sort
  largest_first groups = sort (larger_first (λ g. signed_rank g.size)) (order.visit _ groups)

  -- MtimeDups
  unfoldable pub mtime_dups : List ScannedFile → List ScannedFile → List DupGroup
  unfolding group_by_size with_source mtime_groups largest_first flat_map
  mtime_dups files_a files_b =
      let two_dir = ltb 0 (length files_b) in
      largest_first (
        flat_map (mtime_groups two_dir)
          (order.visit _ (group_by_size (with_source 0 files_a ++ with_source 1 files_b))))

-- which queries for sizes succeed: the sizes of two files or more, and the files of a size
pub record SizeQueries : Type 0 where
  pub collides : Bool
  pub with_size : ℕ → Bool

-- The rows of the scan store, and the queries of filestore.go that detection makes.
unfoldable pub files_with_size : List ScannedFile → ℕ → List ScannedFile
files_with_size rows size = select (λ f. f.size == size) rows

-- SELECT size … GROUP BY size HAVING count(*) >= 2 ORDER BY size DESC
unfoldable pub collision_sizes : List ScannedFile → List ℕ
unfolding group_by_size sort
collision_sizes rows = sort (larger_first signed_rank) (map (λ e. e.0) (group_by_size rows))

-- the same, with the count of each size
unfoldable pub collision_size_counts : List ScannedFile → List (ℕ × ℕ)
unfolding collision_sizes
collision_size_counts rows =
    map (λ size. (size, length (files_with_size rows size))) (collision_sizes rows)

module _ (order : Order) where
  -- the loop of MtimeDupsStore over the sizes
  unfoldable pub mtime_loop : SizeQueries → List ScannedFile → Bool → List ℕ → Run (List DupGroup)
  unfolding files_with_size mtime_groups
  mtime_loop queries rows two_dir [] = done []
  mtime_loop queries rows two_dir (size ∷ sizes) =
      let rest = mtime_loop queries rows two_dir sizes in
      if not (queries.with_size size)
      then failed
      else (rest >>= λ groups.
          done (mtime_groups order two_dir (size, files_with_size rows size) ++ groups))

  -- MtimeDupsStore
  unfoldable pub mtime_dups_store : SizeQueries → List ScannedFile → Bool → Run (List DupGroup)
  unfolding collision_sizes mtime_loop largest_first
  mtime_dups_store queries rows two_dir =
      if not queries.collides
      then failed
      else (mtime_loop queries rows two_dir (collision_sizes rows) >>= λ groups.
          done (largest_first order groups))

  -- checksumGroup, once the workers are done: each file with its hash
  unfoldable pub hash_pairs :
      (ScannedFile → Option Text) → List ScannedFile → List (Text × ScannedFile)
  hash_pairs hash [] = []
  hash_pairs hash (f ∷ files) =
      let rest = hash_pairs hash files in
      elim (hash f) [ none ↦ rest | some h ↦ if list_eq h [] then rest else (h, f) ∷ rest ]

  unfoldable pub checksum_group :
      (ScannedFile → Option Text) → List ScannedFile → ℕ → Bool → List DupGroup
  unfolding hash_pairs is_candidate
  checksum_group hash candidates size two_dir =
      map (λ e. record { size = size; hash = e.0; files = e.1 })
        (select (λ e. is_candidate two_dir e.1)
          (order.visit _ (group (hash_pairs hash candidates))))

  -- SizesSortedDesc
  unfoldable pub sizes_sorted_desc : List (ℕ × List ScannedFile) → List ℕ
  unfolding sort
  sizes_sorted_desc by_size =
      sort (larger_first signed_rank) (order.visit _ (map (λ e. e.0) by_size))

  module _ {S : Type 0} (hash : ScannedFile → Option Text)
      (on_batch : List DupGroup → S → Bool × S) where
    -- what a batch leaves: whether to go on, and the state of the caller
    unfoldable pub hand_over : List DupGroup → S → Bool × S
    hand_over [] s = (true, s)
    hand_over (g ∷ groups) s = on_batch (g ∷ groups) s

    -- the body of the loop for a size whose candidates are there; `rest` is the loop over the other sizes
    unfoldable pub checksum_step : (S → Bool × S) → Bool → ℕ → List ScannedFile → S → Bool × S
    unfolding checksum_group hand_over
    checksum_step rest two_dir size candidates s =
        let (go_on, s') = hand_over (checksum_group hash candidates size two_dir) s in
        if two_dir && not (spans_multiple_sources candidates)
        then rest s
        else if go_on
        then rest s'
        else (true, s')

    -- the loop of ChecksumDupsStore over the sizes: whether there was no error, and the caller's state
    unfoldable pub checksum_loop : (ℕ → Option (List ScannedFile)) → Bool → List ℕ → S → Bool × S
    unfolding checksum_step
    checksum_loop candidates_of two_dir [] s = (true, s)
    checksum_loop candidates_of two_dir (size ∷ sizes) s = elim (candidates_of size) [
      | none ↦ (false, s)
      | some candidates ↦
          checksum_step (checksum_loop candidates_of two_dir sizes) two_dir size candidates s
    ]

    unfoldable pub not_skipped : List Text → List ScannedFile → List ScannedFile
    not_skipped skip files = select (λ f. not (has f.path skip)) files

    -- ChecksumDupsStore
    unfoldable pub checksum_dups_store :
        SizeQueries → List ScannedFile → Bool → List Text → S → Bool × S
    unfolding checksum_loop collision_size_counts not_skipped
    checksum_dups_store queries rows two_dir skip s =
        if not queries.collides
        then (false, s)
        else checksum_loop
            (λ size.
              if queries.with_size size
              then some (not_skipped skip (files_with_size rows size))
              else none)
            two_dir (map (λ c. c.0) (collision_size_counts rows)) s

    -- ChecksumDups, with SizesSortedDesc over the map of GroupBySize
    unfoldable pub checksum_dups :
        List ScannedFile → List ScannedFile → Bool → List Text → S → Bool × S
    unfolding checksum_loop not_skipped with_source group_by_size sizes_sorted_desc
    checksum_dups files_a files_b two_dir skip s =
        let all =
          with_source 0 (not_skipped skip files_a) ++ with_source 1 (not_skipped skip files_b) in
        let by_size = group_by_size all in
        checksum_loop (λ size. some (value_at size by_size)) two_dir (sizes_sorted_desc by_size) s
