-- ===== src/Files.antt =====
-- The records that every phase shares: scanned files (scan.go), duplicate groups (detect.go), tree
-- pairs (tree_dup.go), overlap blocks (overlap.go) and the options that the modelled code reads.
-- An int64 is kept as its 64-bit pattern, a number below 2 ^ 64: sums and products wrap, and
-- an order of int64 values goes through `signed_rank`.
use dup_detector.Prelude.{ℕ, ◌+◌, ◌-◌, ◌*◌, ◌%◌, ◌^◌, Bool, List, length}
use dup_detector.Text.{Text}

abbrev pub word : ℕ
word = 2 ^ 64

unfoldable pub add64 : ℕ → ℕ → ℕ
add64 a b = (a + b) % word

unfoldable pub mul64 : ℕ → ℕ → ℕ
mul64 a b = (a * b) % word

-- Monotone in the signed value of a pattern: 0 for the least int64.
unfoldable pub signed_rank : ℕ → ℕ
signed_rank a = (a + 2 ^ 63) % word

pub record ScannedFile : Type 0 where
  pub path : Text
  pub rel_path : Text
  pub size : ℕ
  pub mod_time : ℕ
  pub inode : ℕ
  pub source : ℕ

pub record DupGroup : Type 0 where
  pub size : ℕ
  pub hash : Text
  pub files : List ScannedFile

-- g.Size * int64(len(g.Files)-1)
unfoldable pub wasted_bytes : DupGroup → ℕ
unfolding mul64
wasted_bytes g = mul64 g.size ((length g.files + word - 1) % word)

pub record TreeDupPair : Type 0 where
  pub dir_a : Text
  pub dir_b : Text
  pub file_count : ℕ
  pub total_size : ℕ
  pub verified : Bool

pub record OverlapItem : Type 0 where
  pub size : ℕ
  pub a_files : List ScannedFile
  pub b_files : List ScannedFile

pub record DirOverlapBlock : Type 0 where
  pub root_a : Text
  pub root_b : Text
  pub items : List OverlapItem
  pub shared_bytes : ℕ

-- DirLookup: the files under a directory
abbrev pub DirLookup : Type 0
DirLookup = Text → List ScannedFile

-- FilterRule: a rule that includes overrides an earlier one that excludes
pub record FilterRule : Type 0 where
  pub pattern : Text
  pub exclude : Bool

-- the options that a scan reads
pub record ScanConfig : Type 0 where
  pub recursive : Bool
  pub one_file_system : Bool
  pub min_size : ℕ
  pub max_size : ℕ
  pub rules : List FilterRule
