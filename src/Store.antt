-- ===== src/Store.antt =====
-- filestore.go: the inventory of scanned files. The database is a parameter that tells which of its
-- calls succeed; a query reads the rows by its text, and ORDER BY leaves equal paths in any order.
pub mod Range
pub mod Coverage
pub mod Batches
pub mod Kept
use dup_detector.Prelude.{
  ℕ, suc, ◌+◌, ◌-◌, ◌%◌, Bool, true, false, not, ◌&&◌, Option, none, some, List, [], ◌∷◌, ◌++◌,
  if◌then◌else◌, ◌==◌, length, take, any, select, list_eq, sort, Order,
}
use dup_detector.Prelude.Runs.{Run, done, failed, ◌>>=◌}
use dup_detector.Text.{Text, codes, slash, text_lt, has_prefix}
use dup_detector.Text.Paths.{clean}
use dup_detector.Files.{ScannedFile, add64}
use dup_detector.TreeDup.Incremental.{Index}

-- which database calls succeed: opening a new file, its table and its insert, an insert and a commit by
-- the number of files so far, a new transaction, an index by its name, for a directory its count, its
-- list and its stream, and the count and the walk of all rows
pub record Database : Type 0 where
  pub opens : Bool
  pub creates : Bool
  pub prepares : Bool
  pub inserts : ScannedFile → ℕ → Bool
  pub commits : ℕ → Bool
  pub begins : ℕ → Bool
  pub indexes : Text → Bool
  pub counts : Text → Bool
  pub lists : Text → Bool
  pub streams : Text → Bool
  pub totals : Bool
  pub walks : Bool

-- the rows that are committed, those of the open transaction, and n
pub record FileStore : Type 0 where
  pub committed : List ScannedFile
  pub open_rows : Option (List ScannedFile)
  pub count : ℕ

-- Clean(dir) + "/", and the same with "0" in place of the slash
unfoldable pub prefix_range : Text → Text × Text
unfolding clean
prefix_range dir = let lo = clean dir ++ slash ∷ [] in (lo, take (length lo - 1) lo ++ codes "0")

-- path >= ? AND path < ?
unfoldable pub in_range : Text → Text → ScannedFile → Bool
unfolding text_lt
in_range lo hi f = not (text_lt f.path lo) && text_lt f.path hi

unfoldable pub rows_under : List ScannedFile → Text → List ScannedFile
unfolding prefix_range in_range
rows_under rows dir = let (lo, hi) = prefix_range dir in select (in_range lo hi) rows

unfoldable pub by_path : ScannedFile → ScannedFile → Bool
unfolding text_lt
by_path f g = text_lt f.path g.path

module _ (database : Database) where
  -- NewFileStore
  unfoldable pub new_file_store : Run FileStore
  new_file_store =
      if not database.opens
      then failed
      else if not database.creates
      then failed
      else if not database.prepares
      then failed
      else if not (database.begins 0)
      then failed
      else done (record { committed = []; open_rows = some []; count = 0 })

  -- Add; without an open transaction it would not be called
  unfoldable pub add : ScannedFile → FileStore → Run FileStore
  add f s = elim s.open_rows [
    | none ↦ failed
    | some rows ↦
        let n = s.count + 1 in
        if not (database.inserts f s.count)
        then failed
        else if n % 50000 == 0
        then if not (database.commits n)
          then failed
          else if not (database.begins n)
          then failed
          else done
              (record { committed = s.committed ++ rows ++ f ∷ []; open_rows = some []; count = n })
        else done (record s { open_rows = some (rows ++ f ∷ []); count = n })
  ]

  unfoldable pub commit_open : FileStore → Run FileStore
  commit_open s = elim s.open_rows [
    | none ↦ done s
    | some rows ↦
        if database.commits s.count
        then done (record s { committed = s.committed ++ rows; open_rows = none })
        else failed
  ]

  -- Finalize
  unfoldable pub finalize : FileStore → Run FileStore
  unfolding commit_open
  finalize s = commit_open s >>= λ s'.
      if not (database.indexes (codes "idx_size"))
      then failed
      else if not (database.indexes (codes "idx_path"))
      then failed
      else done s'

  unfoldable pub add_all : List ScannedFile → FileStore → Run FileStore
  unfolding add
  add_all [] s = done s
  add_all (f ∷ files) s = add f s >>= λ s'. add_all files s'

  module _ (order : Order) (rows : List ScannedFile) where
    -- the rows that a query for a directory reads, by their paths
    unfoldable pub sorted_under : Text → List ScannedFile
    unfolding rows_under sort by_path
    sorted_under dir = sort by_path (order.visit _ (rows_under rows dir))

    -- FilesUnderDir
    unfoldable pub stored_under : Text → Run (List ScannedFile)
    unfolding sorted_under
    stored_under dir = if database.lists dir then done (sorted_under dir) else failed

    -- CountUnderDir
    unfoldable pub count_under_dir : Text → Run ℕ
    unfolding rows_under
    count_under_dir dir =
        if database.counts dir then done (length (rows_under rows dir)) else failed

    -- the loop of StreamFilesUnderDir: a call tells whether to go on
    unfoldable pub stream : {S : Type 0} → (ScannedFile → S → Bool × S) → List ScannedFile → S → S
    stream fn [] s = s
    stream fn (f ∷ files) s =
        let (go_on, s') = fn f s in let rest = stream fn files s' in if go_on then rest else s'

    -- StreamFilesUnderDir
    unfoldable pub stream_files_under_dir :
        {S : Type 0} → Text → (ScannedFile → S → Bool × S) → S → Run S
    unfolding sorted_under stream
    stream_files_under_dir dir fn s =
        if database.streams dir then done (stream fn (sorted_under dir) s) else failed

    -- index[path], if it is there
    unfoldable pub dups_at : Text → Index → Option (List Text)
    dups_at path [] = none
    dups_at path ((k, v) ∷ index) =
        let rest = dups_at path index in if list_eq k path then some v else rest

    -- the variables of CoverageAndSize
    abbrev pub Tally : Type 0
    Tally = Bool × (Bool × ℕ)

    -- the function that CoverageAndSize streams: some file was seen, all are covered, the total
    unfoldable pub tally : Text → Index → ScannedFile → Tally → Bool × Tally
    unfolding dups_at has_prefix add64
    tally prefix index f (seen, (covered, total)) =
        let total' = add64 total f.size in
        elim (dups_at f.path index) [
          | none ↦ (false, (true, (false, total')))
          | some dups ↦
              if any (λ dup. not (list_eq dup f.path) && has_prefix dup prefix) dups
              then (true, (true, (covered, total')))
              else (false, (true, (false, total')))
        ]

    -- CoverageAndSize
    unfoldable pub coverage_and_size : Text → Text → Index → Run (Bool × ℕ)
    unfolding clean tally stream_files_under_dir
    coverage_and_size dir target index =
        stream_files_under_dir dir (tally (clean target ++ slash ∷ []) index) (false, (true, 0))
        >>= λ t. done (if not t.0 then (false, 0) else t.1)
