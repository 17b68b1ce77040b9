-- ===== src/Store/Coverage.antt =====
-- CoverageAndSize (filestore.go) decides what allCoveredByIndex (tree_dup.go) decides on a list.
use dup_detector.Prelude.{
  ◌⊎◌, inl, inr, Bool-cases, ℕ, ◌≡◌, refl, ap, inl, inr, Bool, true, false, not, ◌&&◌, ◌||◌, none,
  some, List, [], ◌∷◌, ◌++◌, arith, ◌==◌, if◌then◌else◌, length, Bool-cases, Option-cases, Order,
}
use dup_detector.Prelude.Runs.{done}
use dup_detector.Text.{Text, slash}
use dup_detector.Text.Paths.{clean}
use dup_detector.Files.{ScannedFile, add64}
use dup_detector.TreeDup.Incremental.{
  Index, members_at, covered, all_covered_by_index, sum_file_sizes,
}
use dup_detector.Store.{
  Database, sorted_under, stream, stream_files_under_dir, dups_at, tally, coverage_and_size,
}

module _ (database : Database) (order : Order) (rows : List ScannedFile) where
  members_at-dups_at :
      (path : Text) (index : Index)
      → members_at path index
        ≡ (elim (dups_at database order rows path index) [ none ↦ [] | some v ↦ v ])
  unfolding members_at dups_at
  members_at-dups_at path [] = refl
  members_at-dups_at path ((k, v) ∷ index) = ground (arith, members_at-dups_at path index)

  tally-covered :
      (prefix : Text) (index : Index) (f : ScannedFile) (seen c : Bool) (total : ℕ)
      → tally database order rows prefix index f (seen, (c, total))
        ≡ (covered prefix index f, (true, (c && covered prefix index f, add64 total f.size)))
  unfolding tally covered
  tally-covered prefix index f seen c total =
      let m = members_at-dups_at f.path index in
      elim (Option-cases (dups_at database order rows f.path index)) [
        | inl n ↦ ground (arith, m, n)
        | inr (v, e) ↦ ground (arith, m, e)
      ]

  -- whether each file is covered
  abbrev all_covered : Text → Index → List ScannedFile → Bool
  all_covered prefix index [] = true
  all_covered prefix index (f ∷ files) = covered prefix index f && all_covered prefix index files

  all_covered_by_index-all_covered :
      (files : List ScannedFile) (dir : Text) (index : Index)
      → all_covered_by_index files dir index ≡ all_covered (clean dir ++ slash ∷ []) index files
  unfolding all_covered_by_index
  all_covered_by_index-all_covered [] dir index = refl
  all_covered_by_index-all_covered (f ∷ files) dir index =
      ap (λ b. covered (clean dir ++ slash ∷ []) index f && b)
        (all_covered_by_index-all_covered files dir index)

  -- What the stream leaves, if all files so far were covered.
  stream-tally :
      (prefix : Text) (index : Index) (files : List ScannedFile) (seen : Bool) (total : ℕ)
      → ((stream database order rows
            (tally database order rows prefix index)
            files
            (seen, (true, total))).0
          ≡ (seen || not (length files == 0)))
        × ((stream database order rows
              (tally database order rows prefix index)
              files
              (seen, (true, total))).1.0
            ≡ all_covered prefix index files)
        × (all_covered prefix index files ≡ true
            → (stream database order rows
                (tally database order rows prefix index)
                files
                (seen, (true, total))).1.1
              ≡ sum_file_sizes files total)
  unfolding stream sum_file_sizes
  stream-tally prefix index [] seen total = (ground arith, refl, λ h. refl)
  stream-tally prefix index (f ∷ files) seen total =
      let step = tally-covered prefix index f seen true total in
      let (a, b, c) = stream-tally prefix index files true (add64 total f.size) in
      elim (Bool-cases (covered prefix index f)) [
        | inl e ↦ rw (step, e) (ground (arith, a), b, λ h. c (ground (arith, h)))
        | inr e ↦ rw (step, e) (ground arith, refl, λ h. absurd (ground (arith, h)))
      ]

  coverage_and_size-stored :
      (dir target : Text) (index : Index)
      → database.streams dir ≡ true
      → (total : ℕ) × (coverage_and_size database order rows dir target index
          ≡ done (
            not (length (sorted_under database order rows dir) == 0)
                && all_covered_by_index (sorted_under database order rows dir) target index,
            total,
          ))
        × (not (length (sorted_under database order rows dir) == 0)
                && all_covered_by_index (sorted_under database order rows dir) target index
              ≡ true
            → total ≡ sum_file_sizes (sorted_under database order rows dir) 0)
  unfolding coverage_and_size stream_files_under_dir
  coverage_and_size-stored dir target index h =
      let files = sorted_under database order rows dir in
      let prefix = clean target ++ slash ∷ [] in
      let (a, b, c) = stream-tally prefix index files false 0 in
      let all = all_covered_by_index-all_covered files target index in
      let t =
        stream database order rows (tally database order rows prefix index) files
          (false, (true, 0)) in
      (
        (if not t.0 then 0 else t.1.1),
        rw h (ground (arith, a, b, all)),
        λ k. ground (arith, a, b, all, k, c),
      )

  -- Where the stream of a directory does not fail, the streamed check of coverage has an answer: that of
  -- the check of the list, if there are files, and no coverage if there are none. Where there is
  -- coverage, it totals the sizes of the files.
  pub coverage_and_size-list :
      (dir target : Text) (index : Index) (files : List ScannedFile)
      → database.streams dir ≡ true
      → sorted_under database order rows dir ≡ files
      → (total : ℕ) × (coverage_and_size database order rows dir target index
          ≡ done (not (length files == 0) && all_covered_by_index files target index, total))
        × ((not (length files == 0) && all_covered_by_index files target index ≡ false)
            ⊎ (total ≡ sum_file_sizes files 0))
  coverage_and_size-list dir target index files h same =
      let (total, e, sums) = coverage_and_size-stored dir target index h in
      rw (← same) (
        total,
        e,
        elim (Bool-cases (
            not (length (sorted_under database order rows dir) == 0)
            && all_covered_by_index (sorted_under database order rows dir) target index)) [
              | inl b ↦ inr (sums b)
              | inr b ↦ inl b
            ],
      )
