-- ===== src/Copy/Tree.antt =====
-- copyPath of copy.go: the copy of a file or of a directory, whose files a pool of workers copies, in the
-- order that `order` chooses (Pool says why it is any order). The entries that the walk of the
-- source meets and the copy of one file are parameters of the section.
use dup_detector.Prelude.{
  ◌+◌, ◌*◌, ◌%◌, ◌^◌, leb, length, ℕ, Bool, true, false, not, ◌&&◌, ◌||◌, Option, none, some, List,
  [], ◌∷◌, if◌then◌else◌, ltb, Order,
}
use dup_detector.Prelude.Runs.{Run, done, failed, panic}
use dup_detector.Text.{Text}
use dup_detector.Files.{signed_rank}
use dup_detector.Cache.{FileMetadata}
use dup_detector.Copy.{default_chunk_bytes}
use dup_detector.Scan.{child_path, has_sidecar_suffix}

-- a file to copy and where to
pub record Job : Type 0 where
  pub path : Text
  pub target : Text

-- what the walk is called with; `is_broken` is an error
pub record WalkEntry : Type 0 where
  pub path : Text
  pub name : Text
  pub is_dir : Bool
  pub is_regular : Bool
  pub is_broken : Bool

-- the number of workers
unfoldable pub transfers_of : ℕ → ℕ
unfolding signed_rank
transfers_of n = if ltb (signed_rank n) (signed_rank 1) then 1 else n

module _ (rel : Text → Text → Option Text) (src dst : Text) where
  -- the walk: whether it comes to its end, and the jobs it has sent
  unfoldable pub walk_jobs : List WalkEntry → Bool × List Job
  unfolding has_sidecar_suffix child_path
  walk_jobs [] = (true, [])
  walk_jobs (e ∷ entries) =
      let (ok, jobs) = walk_jobs entries in
      if e.is_broken
      then (false, [])
      else if e.is_dir || not e.is_regular || has_sidecar_suffix e.name
      then (ok, jobs)
      else elim (rel src e.path) [
        | none ↦ (false, [])
        | some r ↦ (ok, record { path = e.path; target = child_path dst r } ∷ jobs)
      ]

-- the part of a worker under the lock, for a copy with this target and the results so far: whether there
-- is no first error, and the calls of onFile
unfoldable pub after_copy :
    Run FileMetadata → Text → Bool × List (Text × FileMetadata) → Bool × List (Text × FileMetadata)
after_copy (done meta) target (ok, files) = (ok, (target, meta) ∷ files)
after_copy failed target (ok, files) = (false, files)
after_copy panic target (ok, files) = (false, files)

module _ (copy : Job → Run FileMetadata) where
  -- the results of the jobs in the order in which they come to the lock
  unfoldable pub collect_results : List Job → Bool × List (Text × FileMetadata)
  unfolding after_copy
  collect_results [] = (true, [])
  collect_results (j ∷ jobs) = after_copy (copy j) j.target (collect_results jobs)

  -- copyPath, by what Stat says of the source: an error, a file, or a directory with its entries
  unfoldable pub copy_path :
      Order
      → (Text → Text → Option Text)
      → Text
      → Text
      → Option Bool
      → List WalkEntry
      → Bool × List (Text × FileMetadata)
  unfolding walk_jobs collect_results
  copy_path order rel src dst none entries = (false, [])
  copy_path order rel src dst (some false) entries =
      collect_results (record { path = src; target = dst } ∷ [])
  copy_path order rel src dst (some true) entries =
      let (walked, jobs) = walk_jobs rel src dst entries in
      let (copied, files) = collect_results (order.visit _ jobs) in (walked && copied, files)

-- the chunk size that runCopy passes on, from a number of MiB
unfoldable pub copy_chunk : ℕ → ℕ
unfolding signed_rank
copy_chunk mib =
    let chunk = mib * 2 ^ 20 % 2 ^ 64 in
    if leb (signed_rank chunk) (signed_rank 0) then default_chunk_bytes else chunk

-- the sum of the sizes of copied files
unfoldable pub copied_bytes : List (Text × FileMetadata) → ℕ
copied_bytes [] = 0
copied_bytes ((target, meta) ∷ files) = (copied_bytes files + meta.size) % 2 ^ 64

-- runCopy, where `copy` copies a file with a chunk size: whether there is no error, and the counts that it
-- prints
unfoldable pub run_copy :
    (ℕ → Job → Run FileMetadata)
    → Order
    → (Text → Text → Option Text)
    → ℕ
    → Text
    → Text
    → Option Bool
    → List WalkEntry
    → Bool × (ℕ × ℕ)
unfolding copy_path copy_chunk copied_bytes
run_copy copy order rel mib src dst stat entries =
    let (ok, files) = copy_path (copy (copy_chunk mib)) order rel src dst stat entries in
    (ok, (length files, copied_bytes files))
