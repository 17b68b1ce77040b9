-- ===== src/Overlap.antt =====
-- overlap.go: the duplicate groups that two columns share, in blocks of two columns. A column is
-- a root, or a directory under it: `col_of` gives the column of a file, and is empty for none.
pub mod Blocks
pub mod Coverage
pub mod Columns
use dup_detector.Prelude.{
  ℕ, zero, suc, Bool, true, false, not, Option, none, some, List, [], ◌∷◌, ◌++◌, map, if◌then◌else◌,
  ltb, leb, ◌==◌, length, select, has, list_eq, text_eq, nat_eq, pair_eq, flat_map, chunks, sort,
  larger_first, Order,
}
use dup_detector.Prelude.Grouping.{group, value_at}
use dup_detector.Text.{Text, text_lt}
use dup_detector.Files.{ScannedFile, DupGroup, OverlapItem, DirOverlapBlock, add64, signed_rank}

-- aSide and bSide
unfoldable pub side : Bool → List OverlapItem → List ScannedFile
side a [] = []
side a (it ∷ items) = (if a then it.a_files else it.b_files) ++ side a items

-- pairKey, and cand: the index of a group, and its item
abbrev pub PairKey : Type 0
PairKey = Text × Text

abbrev pub Cand : Type 0
Cand = ℕ × OverlapItem

-- byCol
unfoldable pub by_column : (ScannedFile → Text) → List ScannedFile → List (Text × List ScannedFile)
by_column col_of files =
    group (map (λ f. (col_of f, f)) (select (λ f. not (list_eq (col_of f) [])) files))

-- the item of a group whose sorted columns are known, if they are two
unfoldable pub item_between :
    DupGroup → List (Text × List ScannedFile) → List Text → Option (PairKey × OverlapItem)
item_between g by_col (a ∷ b ∷ []) =
    some
      ((a, b), record { size = g.size; a_files = value_at a by_col; b_files = value_at b by_col })
item_between g by_col [] = none
item_between g by_col (a ∷ []) = none
item_between g by_col (a ∷ b ∷ c ∷ cols) = none

-- the order of the pair keys
unfoldable pub pair_before : PairKey → PairKey → Bool
pair_before (a, b) (a', b') = if not (list_eq a a') then text_lt a a' else text_lt b b'

-- Σ item.size over a chunk
unfoldable pub sum_shared : List Cand → ℕ → ℕ
unfolding add64
sum_shared [] total = total
sum_shared (c ∷ cs) total = sum_shared cs (add64 total c.1.size)

unfoldable pub block_of : PairKey × List Cand → DirOverlapBlock
unfolding sum_shared
block_of (pk, chunk) = record {
  root_a = pk.0;
  root_b = pk.1;
  items = map (λ c. c.1) chunk;
  shared_bytes = sum_shared chunk 0;
}

-- the groups whose index is not absorbed
unfoldable pub not_absorbed : List ℕ → ℕ → List DupGroup → List DupGroup
not_absorbed absorbed gi [] = []
not_absorbed absorbed gi (g ∷ groups) =
    let rest = not_absorbed absorbed (suc gi) groups in if has gi absorbed then rest else g ∷ rest

unfoldable pub add_candidate :
    ℕ → Option (PairKey × OverlapItem) → List (PairKey × Cand) → List (PairKey × Cand)
add_candidate gi none rest = rest
add_candidate gi (some (pk, it)) rest = (pk, (gi, it)) ∷ rest

-- the defaults of the two limits, for an int that is too small
unfoldable pub block_size_of : ℕ → ℕ
block_size_of n = if leb (signed_rank n) (signed_rank 0) then 30 else n

unfoldable pub min_overlap_of : ℕ → ℕ
min_overlap_of n = if ltb (signed_rank n) (signed_rank 2) then 2 else n

module _ (order : Order) (col_of : ScannedFile → Text) where
  unfoldable pub shared_item : DupGroup → Option (PairKey × OverlapItem)
  unfolding by_column item_between sort
  shared_item g =
      let by_col = by_column col_of g.files in
      item_between g by_col (sort text_lt (order.visit _ (map (λ e. e.0) by_col)))

  -- the loop over the groups
  unfoldable pub candidates : ℕ → List DupGroup → List (PairKey × Cand)
  unfolding shared_item add_candidate
  candidates gi [] = []
  candidates gi (g ∷ groups) = add_candidate gi (shared_item g) (candidates (suc gi) groups)

  -- the chunks of one pair of columns, the largest files first
  unfoldable pub pair_chunks :
      ℕ → ℕ → List (PairKey × List Cand) → PairKey → List (PairKey × List Cand)
  unfolding chunks sort
  pair_chunks block_size min_overlap pair_items pk =
      let cs = value_at pk pair_items in
      if ltb (signed_rank (length cs)) (signed_rank min_overlap)
      then []
      else map (λ c. (pk, c))
          (chunks (length cs) block_size (sort (larger_first (λ c. signed_rank c.1.size)) cs))

  unfoldable pub all_chunks : List DupGroup → ℕ → ℕ → List (PairKey × List Cand)
  unfolding candidates pair_chunks flat_map
  all_chunks groups block_size min_overlap =
      let pair_items = group (candidates 0 groups) in
      flat_map (pair_chunks block_size min_overlap pair_items)
        (sort pair_before (order.visit _ (map (λ e. e.0) pair_items)))

  -- BuildOverlapBlocks
  unfoldable pub build_overlap_blocks : List DupGroup → ℕ → ℕ → List DirOverlapBlock × List DupGroup
  unfolding all_chunks block_size_of min_overlap_of not_absorbed block_of
  build_overlap_blocks groups block_size min_overlap =
      let used = all_chunks groups (block_size_of block_size) (min_overlap_of min_overlap) in
      (map block_of used, not_absorbed (flat_map (λ c. map (λ (x : Cand). x.0) c.1) used) 0 groups)
