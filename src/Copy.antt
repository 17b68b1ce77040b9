-- ===== src/Copy.antt =====
-- copy.go: the copy of one file, which is read back before its sidecar is written. The source's bytes,
-- the MD5, which calls succeed and what the destination holds in the end are parameters. A loop on
-- fuel that runs out is a panic, of which the code has none.
pub mod Chunks
pub mod Verified
pub mod Tree
pub mod Pool
use dup_detector.Prelude.{
  ℕ, zero, suc, ◌+◌, ◌-◌, ◌*◌, ◌^◌, Bool, true, false, not, ◌&&◌, Option, none, some, List, [], ◌∷◌,
  ◌++◌, if◌then◌else◌, ltb, leb, ◌==◌, length, get_elem?, take, drop, list_eq,
}
use dup_detector.Prelude.Runs.{Run, done, failed, panic, ◌>>=◌}
use dup_detector.Text.{Text}
use dup_detector.Files.{signed_rank}
use dup_detector.Cache.{FileMetadata}

-- the source file; a read of the chunk with this number can end in an error
pub record Source : Type 0 where
  pub opens : Bool
  pub stats : Bool
  pub content : Text
  pub breaks : ℕ → Bool
  pub size : ℕ
  pub mod_time : ℕ

-- the destination: its calls, the writes and the reads by the number of the chunk; what it holds once
-- what was written is closed, or of a copy that was not removed; and what a sidecar that was not
-- written well says
pub record Target : Type 0 where
  pub makes_dir : Bool
  pub creates : Bool
  pub writes : ℕ → Bool
  pub closes : Bool
  pub keeps : Text → Text
  pub reopens : Bool
  pub reads : ℕ → Bool
  pub removes : Bool
  pub partial : Text
  pub writes_sidecar : Bool
  pub partial_sidecar : Option FileMetadata

-- what is at the destination
pub record Copied : Type 0 where
  pub file : Option Text
  pub sidecar : Option FileMetadata

-- defaultChunkBytes
abbrev pub default_chunk_bytes : ℕ
default_chunk_bytes = 2 ^ 26

unfoldable pub chunk_bytes : ℕ → ℕ
unfolding signed_rank
chunk_bytes size = if leb (signed_rank size) (signed_rank 0) then default_chunk_bytes else size

module _ (md5 : Text → Text) (source : Source) (target : Target) where
  -- the loop that copies: what was written, and the MD5 of each chunk
  unfoldable pub copy_chunks : ℕ → ℕ → ℕ → Text → Text → List Text → Run (Text × List Text)
  copy_chunks zero size i content written sums = panic
  copy_chunks (suc fuel) size i content written sums =
      let chunk = take size content in
      let n = length chunk in
      let sums' = if ltb 0 n then sums ++ md5 chunk ∷ [] else sums in
      let next = copy_chunks fuel size (suc i) (drop size content) (written ++ chunk) sums' in
      if ltb 0 n && not (target.writes i)
      then failed
      else if source.breaks i
      then failed
      else if ltb n size
      then done (written ++ chunk, sums')
      else next

  -- check
  unfoldable pub check_chunk : ℕ → Text → ℕ → Text → Bool
  check_chunk size stored i sum =
      target.reads i && list_eq (md5 (take size (drop (i * size) stored))) sum

  unfoldable pub check_each : ℕ → Text → ℕ → List Text → Bool
  check_each size stored i [] = true
  check_each size stored i (sum ∷ sums) =
      let rest = check_each size stored (suc i) sums in
      if check_chunk size stored i sum then rest else false

  -- verifyReadback: whether it finds no error
  unfoldable pub verify_readback : ℕ → Text → List Text → Bool → Bool
  unfolding check_each
  verify_readback size stored sums full =
      if length sums == 0
      then true
      else if not target.reopens
      then false
      else if full
      then check_each size stored 0 sums
      else elim (get_elem? sums (length sums - 1)) [
        | none ↦ false
        | some sum ↦ check_chunk size stored (length sums - 1) sum
      ]

  -- the destination after a copy that failed
  abbrev pub gone : Copied → Copied
  gone st = record st { file = if target.removes then none else some target.partial }

  unfoldable pub metadata : ℕ → Text → List Text → FileMetadata
  metadata size written sums = record {
    size = source.size;
    mod_time = source.mod_time;
    md5 = md5 written;
    chunk_size = size;
    chunk_md5 = sums;
  }

  -- what follows the loop that copies
  unfoldable pub finish_copy :
      ℕ → Bool → Run (Text × List Text) → Copied → Run FileMetadata × Copied
  unfolding verify_readback metadata
  finish_copy size full failed st = (failed, gone st)
  finish_copy size full panic st = (panic, st)
  finish_copy size full (done (written, sums)) st =
      let stored = target.keeps written in
      let meta = metadata size written sums in
      if not target.closes
      then (failed, gone st)
      else if not (verify_readback size stored sums full)
      then (failed, gone st)
      else if not target.writes_sidecar
      then (failed, record { file = some stored; sidecar = target.partial_sidecar })
      else (done meta, record { file = some stored; sidecar = some meta })

  -- copyFileWithMetadata
  unfoldable pub copy_file_with_metadata : ℕ → Bool → Copied → Run FileMetadata × Copied
  copy_file_with_metadata chunk_size full st =
      let size = chunk_bytes chunk_size in
      if not (source.opens && source.stats && target.makes_dir && target.creates)
      then (failed, st)
      else finish_copy size full
          (copy_chunks (length source.content + 1) size 0 source.content [] []) st
