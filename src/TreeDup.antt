-- ===== src/TreeDup.antt =====
-- tree_dup.go: directories with the same files. This file has the helpers of both passes;
-- TreeDup/ByHash has the pass by hash, TreeDup/Incremental the pass by groups.
-- `none` is a panic: a slice that starts beyond the end.
pub mod Incremental
pub mod Below
pub mod Domination
pub mod SubPairs
pub mod ByHash
pub mod Verified
pub mod Stored
use dup_detector.Prelude.{
  ℕ, zero, suc, ◌+◌, ◌*◌, ◌/◌, ◌%◌, ◌^◌, Bool, true, false, not, ◌&&◌, ◌||◌, Option, none, some,
  List, [], ◌∷◌, ◌++◌, map, if◌then◌else◌, ltb, leb, ◌==◌, length, get_elem?, take, drop, any,
  select, list_eq, text_eq, nat_eq, pair_eq, flat_map, sort, smaller_first, larger_first, Order,
  ◌>>=◌,
}
use dup_detector.Prelude.Grouping.{append_at, group, value_at}
use dup_detector.Text.{Text, slash, text_lt, has_prefix, last_index_byte, is_subdir}
use dup_detector.Text.Paths.{clean}
use dup_detector.Files.{ScannedFile, TreeDupPair, DirLookup, word, add64, mul64, signed_rank}

-- sort.Search on the indices lo, …, hi - 1, on fuel `hi - lo`
unfoldable pub search : ℕ → (ℕ → Bool) → ℕ → ℕ → ℕ
search zero p lo hi = lo
search (suc fuel) p lo hi =
    let middle = (lo + hi) / 2 in
    let right = search fuel p (middle + 1) hi in
    let left = search fuel p lo middle in
    if ltb lo hi then if not (p middle) then right else left else lo

-- the loop that stops at the first path without the prefix
unfoldable pub take_below : Text → List ScannedFile → List ScannedFile
unfolding has_prefix
take_below prefix [] = []
take_below prefix (f ∷ files) =
    let rest = take_below prefix files in if has_prefix f.path prefix then f ∷ rest else []

-- allFiles[i].Path >= prefix
unfoldable pub path_from : Text → List ScannedFile → ℕ → Bool
unfolding text_lt
path_from prefix files i = elim (get_elem? files i) [
  | none ↦ true
  | some f ↦ not (text_lt f.path prefix)
]

-- filesUnderDir
unfoldable pub files_under_dir : Text → List ScannedFile → List ScannedFile
unfolding clean search take_below path_from
files_under_dir dir all_files =
    let prefix = clean dir ++ slash ∷ [] in
    let n = length all_files in
    take_below prefix (drop (search n (path_from prefix all_files) 0 n) all_files)

-- partnerOf: the partners of each directory
abbrev pub Partners : Type 0
Partners = List (Text × List Text)

-- the directories that treeDominated looks up from one, on fuel for its length
unfoldable pub ancestors : ℕ → Text → List Text
unfolding last_index_byte
ancestors zero w = []
ancestors (suc fuel) [] = []
ancestors (suc fuel) (c ∷ w) = (c ∷ w) ∷ (elim (last_index_byte (c ∷ w) slash) [
  | none ↦ []
  | some i ↦ let rest = ancestors fuel (take i (c ∷ w)) in if i == 0 then [] else rest
])

unfoldable pub reaches : Partners → Text → Text → Bool
unfolding is_subdir ancestors
reaches partner_of from to =
    any (λ w. any (λ p. list_eq p to || is_subdir p to) (value_at w partner_of))
      (ancestors (length from) from)

-- treeDominated
unfoldable pub tree_dominated : Partners → Text → Text → Bool
unfolding reaches
tree_dominated partner_of a b = reaches partner_of a b || reaches partner_of b a

-- the two writes to partnerOf for a pair that is kept
unfoldable pub add_partners : TreeDupPair → Partners → Partners
add_partners p m = append_at p.dir_b p.dir_a (append_at p.dir_a p.dir_b m)

-- the loop of removeSubPairsFast
unfoldable pub keep_top : Partners → List TreeDupPair → List TreeDupPair
unfolding tree_dominated add_partners
keep_top m [] = []
keep_top m (p ∷ pairs) =
    let skipped = keep_top m pairs in
    let kept = keep_top (add_partners p m) pairs in
    if tree_dominated m p.dir_a p.dir_b then skipped else p ∷ kept

abbrev pub path_length : TreeDupPair → ℕ
path_length p = length p.dir_a + length p.dir_b

-- removeSubPairsFast
unfoldable pub remove_sub_pairs_fast : Order → List TreeDupPair → List TreeDupPair
unfolding keep_top sort
remove_sub_pairs_fast order pairs =
    if leb (length pairs) 1
    then pairs
    else keep_top [] (sort (smaller_first path_length) (order.visit _ pairs))

-- s[n:]
unfoldable pub slice_from : ℕ → Text → Option Text
slice_from n s = if leb n (length s) then some (drop n s) else none

-- bMap: relative path, size and mtime, the last write to a path first
unfoldable pub relative_files :
    ℕ → List ScannedFile → List (Text × (ℕ × ℕ)) → Option (List (Text × (ℕ × ℕ)))
unfolding slice_from
relative_files n [] m = some m
relative_files n (f ∷ files) m =
    slice_from n f.path >>= λ rel. relative_files n files ((rel, (f.size, f.mod_time)) ∷ m)

unfoldable pub file_key : Text → List (Text × (ℕ × ℕ)) → Option (ℕ × ℕ)
file_key rel [] = none
file_key rel ((r, k) ∷ m) = let rest = file_key rel m in if list_eq r rel then some k else rest

unfoldable pub all_match : ℕ → List (Text × (ℕ × ℕ)) → List ScannedFile → Option Bool
unfolding slice_from file_key
all_match n m [] = some true
all_match n m (f ∷ files) = slice_from n f.path >>= λ rel.
    let rest = all_match n m files in
    elim (file_key rel m) [
      | none ↦ some false
      | some k ↦ if not (k.0 == f.size) || not (k.1 == f.mod_time) then some false else rest
    ]

-- verifyTreePairMtime
unfoldable pub verify_tree_pair_mtime : Text → Text → List ScannedFile → Option Bool
unfolding files_under_dir relative_files all_match
verify_tree_pair_mtime dir_a dir_b all_files =
    let files_a = files_under_dir dir_a all_files in
    let files_b = files_under_dir dir_b all_files in
    if length files_a == 0 || not (length files_a == length files_b)
    then some false
    else relative_files (length dir_b + 1) files_b [] >>= λ m.
        all_match (length dir_a + 1) m files_a
