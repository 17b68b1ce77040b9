-- ===== src/TreeDup/ByHash.antt =====
-- FindTreeDupsByHash (tree_dup.go): a commutative hash for each directory, pairs of directories
-- with equal hashes, and the check of each pair that is left. `none` is a panic.
use dup_detector.Prelude.{
  ℕ, zero, suc, ◌+◌, ◌*◌, ◌/◌, ◌%◌, false, not, ◌||◌, Option, none, some, List, [], ◌∷◌, ◌++◌, map,
  if◌then◌else◌, ltb, ◌==◌, length, take, drop, select, list_eq, text_eq, nat_eq, pair_eq, flat_map,
  sort, larger_first, Order, ◌>>=◌,
}
use dup_detector.Prelude.Grouping.{group}
use dup_detector.Text.{Text, slash, text_lt, last_index_byte, is_subdir}
use dup_detector.Files.{ScannedFile, TreeDupPair, add64, mul64, signed_rank}
use dup_detector.TreeDup.{remove_sub_pairs_fast, verify_tree_pair_mtime}

-- dirAccum
pub record DirAccum : Type 0 where
  pub hash : ℕ
  pub file_count : ℕ
  pub total_size : ℕ

-- a ^ b on numbers of w bits
unfoldable pub xor_bits : ℕ → ℕ → ℕ → ℕ
xor_bits zero a b = 0
xor_bits (suc w) a b = (a % 2 + b % 2) % 2 + 2 * xor_bits w (a / 2) (b / 2)

-- h ^= b; h *= prime64
unfoldable pub hash_byte : ℕ → ℕ → ℕ
unfolding xor_bits mul64
hash_byte h b = mul64 (xor_bits 64 h b) 1099511628211

unfoldable pub hash_path : Text → ℕ → ℕ
unfolding hash_byte
hash_path [] h = h
hash_path (c ∷ s) h = hash_path s (hash_byte h c)

-- the eight bytes of an int64, the lowest first
unfoldable pub hash_int64 : ℕ → ℕ → ℕ → ℕ
unfolding hash_byte
hash_int64 zero n h = h
hash_int64 (suc count) n h = hash_int64 count (n / 256) (hash_byte h (n % 256))

-- hashTreeEntry
unfoldable pub hash_tree_entry : Text → ℕ → ℕ → ℕ
unfolding hash_path hash_int64
hash_tree_entry rel_path size mtime =
    hash_int64 8 mtime (hash_int64 8 size (hash_path rel_path 14695981039346656037))

abbrev pub Accum : Type 0
Accum = List (Text × DirAccum)

-- what one file adds to a directory
unfoldable pub add_file : Text → ScannedFile → DirAccum → DirAccum
unfolding add64 hash_tree_entry
add_file rel_path f dd = record {
  hash = add64 dd.hash (hash_tree_entry rel_path f.size f.mod_time);
  file_count = dd.file_count + 1;
  total_size = add64 dd.total_size f.size;
}

unfoldable pub update : Text → Text → ScannedFile → Accum → Accum
unfolding add_file
update current rel_path f [] =
    (current, add_file rel_path f (record { hash = 0; file_count = 0; total_size = 0 })) ∷ []
update current rel_path f ((k, dd) ∷ accum) =
    let rest = update current rel_path f accum in
    if list_eq k current then (k, add_file rel_path f dd) ∷ accum else (k, dd) ∷ rest

unfoldable pub rel_path_in : Text → Text → Text
rel_path_in current p =
    if list_eq current (slash ∷ []) then drop 1 p else drop (length current + 1) p

-- the loop that walks up, on fuel for the length of the directory
unfoldable pub walk_up : ℕ → ScannedFile → Text → Accum → Accum
unfolding update rel_path_in last_index_byte
walk_up zero f current accum = accum
walk_up (suc fuel) f current accum =
    let accum' = update current (rel_path_in current f.path) f accum in
    elim (last_index_byte current slash) [
      | none ↦ accum'
      | some i ↦
          let above = walk_up fuel f (take i current) accum' in if i == 0 then accum' else above
    ]

unfoldable pub accumulate : List ScannedFile → Accum → Accum
unfolding walk_up last_index_byte
accumulate [] accum = accum
accumulate (f ∷ files) accum = elim (last_index_byte f.path slash) [
  | none ↦ accumulate files accum
  | some i ↦
      let current = if i == 0 then slash ∷ [] else take i f.path in
      accumulate files (walk_up (length f.path + 1) f current accum)
]

unfoldable pub accum_of : Text → Accum → DirAccum
accum_of dir [] = record { hash = 0; file_count = 0; total_size = 0 }
accum_of dir ((k, dd) ∷ accum) = let rest = accum_of dir accum in if list_eq k dir then dd else rest

unfoldable pub pair_of : Accum → Text → Text → TreeDupPair
unfolding accum_of
pair_of accum di dj = record {
  dir_a = di;
  dir_b = dj;
  file_count = (accum_of di accum).file_count;
  total_size = (accum_of di accum).total_size;
  verified = false;
}

-- the loops over i and j of a bucket
unfoldable pub bucket_pairs : Accum → List Text → List TreeDupPair
unfolding pair_of is_subdir
bucket_pairs accum [] = []
bucket_pairs accum (di ∷ dirs) =
    map (pair_of accum di) (select (λ dj. not (is_subdir di dj || is_subdir dj di)) dirs)
    ++ bucket_pairs accum dirs

-- one bucket: `minFileCount` is 2, `maxDirsPerBucket` is 2000
unfoldable pub pairs_of_bucket : Accum → (ℕ × ℕ) × List Text → List TreeDupPair
unfolding bucket_pairs sort text_lt
pairs_of_bucket accum (k, dirs) =
    if ltb k.1 2 || ltb (length dirs) 2 || ltb 2000 (length dirs)
    then []
    else bucket_pairs accum (sort text_lt dirs)

-- the pairs that verifyTreePairMtime confirms
unfoldable pub confirm : List ScannedFile → List TreeDupPair → Option (List TreeDupPair)
unfolding verify_tree_pair_mtime
confirm all_files [] = some []
confirm all_files (p ∷ pairs) = verify_tree_pair_mtime p.dir_a p.dir_b all_files >>= λ ok.
    confirm all_files pairs >>= λ rest. some (if ok then p ∷ rest else rest)

module _ (order : Order) where
  -- byKey
  unfoldable pub by_key : Accum → List ((ℕ × ℕ) × List Text)
  by_key accum = group (
      map (λ e. ((e.1.hash, e.1.file_count), e.0))
        (select (λ e. not (e.1.file_count == 0)) (order.visit _ accum)))

  unfoldable pub candidate_pairs : List ScannedFile → List TreeDupPair
  unfolding accumulate by_key pairs_of_bucket flat_map
  candidate_pairs all_files =
      let accum = accumulate all_files [] in
      flat_map (pairs_of_bucket accum) (order.visit _ (by_key accum))

  -- FindTreeDupsByHash
  unfoldable pub find_tree_dups_by_hash : List ScannedFile → Option (List TreeDupPair)
  unfolding candidate_pairs remove_sub_pairs_fast confirm sort
  find_tree_dups_by_hash all_files =
      confirm all_files (remove_sub_pairs_fast order (candidate_pairs all_files)) >>= λ pairs.
      some (sort (larger_first (λ p. signed_rank p.total_size)) (order.visit _ pairs))
