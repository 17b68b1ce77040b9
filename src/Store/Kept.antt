-- ===== src/Store/Kept.antt =====
-- filestore.go: the files of inventories: reopening one that was kept, closing one, and the sweep of those
-- that killed runs left behind. filepath.Abs, what Sscanf reads of a name, which processes live and
-- what a database file holds are parameters.
use dup_detector.Prelude.{
  flat_map, ℕ, ◌≡◌, ◌↔◌, Bool, true, false, not, ◌&&◌, Option, none, some, List, [], ◌∷◌, ◌++◌,
  if◌then◌else◌, ltb, ◌==◌, length, select, list_eq, Memᴰ, mem-select, mem-select_of, mem-flat_map,
  mem-flat_map_inv, inl, inr, arith, Bool-cases, Option-cases, has, text_eq,
}
use dup_detector.Prelude.Runs.{Run, done, failed}
use dup_detector.Text.{Text, codes}
use dup_detector.Text.Paths.{clean}
use dup_detector.Files.{ScannedFile, signed_rank}

-- a database file: its calls, its rows if it has the table, and the names of its indexes
pub record DatabaseFile : Type 0 where
  pub opens : Bool
  pub rows : Option (List ScannedFile)
  pub indexes : Option (List Text)

-- abs, the process id in the name of an inventory (an int's pattern), and whether /proc has an entry for it
pub record Processes : Type 0 where
  pub abs : Text → Option Text
  pub scan_pid : Text → Option ℕ
  pub is_running : ℕ → Bool

-- OpenFileStore: the rows of an inventory
unfoldable pub open_file_store : DatabaseFile → Run (List ScannedFile)
open_file_store file = if not file.opens then failed else elim file.rows [
  | none ↦ failed
  | some rows ↦ elim file.indexes [
    | none ↦ failed
    | some names ↦
        let n =
          length (select (λ name. has name (codes "idx_size" ∷ codes "idx_path" ∷ [])) names) in
        if n == 2 then done rows else failed
  ]
]

-- the database file and those that SQLite keeps beside it
unfoldable pub store_files : Text → List Text
store_files path = path ∷ (path ++ codes "-wal") ∷ (path ++ codes "-shm") ∷ []

-- Close: the files that it removes
unfoldable pub close : Text → Bool → List Text
unfolding store_files
close path keep = if keep then [] else store_files path

module _ (processes : Processes) where
  -- sameFilePath
  unfoldable pub same_file_path : Text → Text → Bool
  same_file_path a b = elim (processes.abs a) [
    | none ↦ false
    | some ra ↦ elim (processes.abs b) [ none ↦ false | some rb ↦ list_eq (clean ra) (clean rb) ]
  ]

  -- a match that the sweep removes
  unfoldable pub is_stale : Text → Text → Bool
  unfolding same_file_path signed_rank
  is_stale keep path =
      if not (list_eq keep []) && same_file_path path keep
      then false
      else elim (processes.scan_pid path) [
        | none ↦ false
        | some pid ↦ not (ltb (signed_rank 0) (signed_rank pid) && processes.is_running pid)
      ]

  -- CleanStaleStores: the files that it removes, among the matches of Glob
  unfoldable pub clean_stale_stores : List Text → Text → List Text
  unfolding is_stale store_files flat_map
  clean_stale_stores matches keep = flat_map store_files (select (is_stale keep) matches)

  is_stale_inv :
      (keep m : Text)
      → is_stale keep m ≡ true
      → (pid : ℕ) × (processes.scan_pid m ≡ some pid)
        × (ltb (signed_rank 0) (signed_rank pid) && processes.is_running pid ≡ false)
        × (not (list_eq keep []) && same_file_path m keep ≡ false)
  unfolding is_stale
  is_stale_inv keep m h = elim (Bool-cases (not (list_eq keep []) && same_file_path m keep)) [
    | inl e ↦ absurd (let h' = rw (is_stale, e) at h in ground (arith, h'))
    | inr e ↦ elim (Option-cases (processes.scan_pid m)) [
      | inl d ↦ absurd (let h' = rw (is_stale, e, d) at h in ground (arith, h'))
      | inr (pid, d) ↦ let h' = rw (is_stale, e, d) at h in (pid, d, ground (arith, h'), e)
    ]
  ]

  -- The sweep removes the files of exactly those matches that have a process id in their name, of no
  -- running process, and are not the inventory that the run is about to use.
  pub clean_stale_stores_iff :
      (matches : List Text) (keep path : Text)
      → Memᴰ path (clean_stale_stores matches keep) ↔ (
          (m : Text) × (pid : ℕ) × Memᴰ m matches
          × Memᴰ path (store_files m)
          × (processes.scan_pid m ≡ some pid)
          × (ltb (signed_rank 0) (signed_rank pid) && processes.is_running pid ≡ false)
          × (not (list_eq keep []) && same_file_path m keep ≡ false))
  unfolding clean_stale_stores is_stale
  clean_stale_stores_iff matches keep path = (
    λ h.
        let (m, n, files) = mem-flat_map_inv store_files (select (is_stale keep) matches) h in
        let (listed, stale) = mem-select (is_stale keep) matches n in
        let (pid, named, ended, other) = is_stale_inv keep m stale in
        (m, pid, listed, files, named, ended, other),
    λ (m, pid, listed, files, named, ended, other).
        let stale : is_stale keep m ≡ true = rw (is_stale, other, named) (ground (arith, ended)) in
        mem-flat_map store_files _ (mem-select_of (is_stale keep) matches listed stale) files,
  )
