-- ===== src/Examples/Storing.antt =====
-- Runs of the store, the tree pairs over it, the hash cache and the filters (filestore.go,
-- store_tree.go, cache.go, filter.go) on the sample data.
use dup_detector.Prelude.{
  arith, ℕ, ◌≡◌, refl, sym, ap, ◌∙◌, Bool-cases, ◌⊎◌, ◌↔◌, inl, inr, true, false, Option, none,
  some, List, [], ◌∷◌, Memᴰ, length, in_order, mem-cons_cases, if◌then◌else◌, list_eq,
}
use dup_detector.Prelude.Grouping.{group}
use dup_detector.Prelude.Runs.{done}
use dup_detector.Text.{Text, codes, text_lt, trim_space}
use dup_detector.Files.{ScannedFile, TreeDupPair, DirLookup, FilterRule, ScanConfig, signed_rank}
use dup_detector.Store.{count_under_dir, Database, FileStore, by_path}
use dup_detector.Store.Batches.{IsHealthy, fill, fill-committed}
use dup_detector.TreeDup.ByHash.{candidate_pairs}
use dup_detector.TreeDup.Stored.{
  new_dir_store_checker, is_filtered, find_tree_dups_by_hash_store, verify_pairs_mtime_store,
  verify_tree_pairs_by_content, memo_at,
}
use dup_detector.TreeDup.Stored.Memo.{
  new-IsTrue, verify_pairs_fresh, verify_pairs_mtime_store-fresh,
}
use dup_detector.TreeDup.Stored.Sound.{
  IsComplete, SameStored, find_tree_dups_by_hash_store-SameStored,
}
use dup_detector.TreeDup.Stored.Content.{
  TellsContent, SameContent, verify_tree_pairs_by_content-SameContent,
}
use dup_detector.Cache.{
  HashCache, Storage, FileMetadata, hash_in, hash_of, row_at, sidecar_md5, cached_md5,
}
use dup_detector.Cache.Trust.{Version, version, IsHonest, IsValid, hash_of-TellsContent, rows_of}
use dup_detector.Cache.Repeat.{reread, hash_in_again}
use dup_detector.Filter.{should_exclude, double_star, match_double_star}
use dup_detector.Filter.Rules.{HasLastWord, should_exclude-HasLastWord}
use dup_detector.Filter.Stars.{match_double_star-fuel}
use dup_detector.Filter.Lines.{IsTidy}
use dup_detector.Examples.{a_one, a_two, b_one, b_two, four_files}
use dup_detector.Examples.Finding.{root_pair}

abbrev pub healthy : Database
healthy = record {
  opens = true;
  creates = true;
  prepares = true;
  inserts = λ f n. true;
  commits = λ n. true;
  begins = λ n. true;
  indexes = λ name. true;
  counts = λ dir. true;
  lists = λ dir. true;
  streams = λ dir. true;
  totals = true;
  walks = true;
}

healthy-IsHealthy : IsHealthy healthy
healthy-IsHealthy = record {
  opens = refl;
  creates = refl;
  prepares = refl;
  inserts = λ f n. refl;
  commits = λ n. refl;
  begins = λ n. refl;
  sizes = refl;
  paths = refl;
}

fill-committed_example :
    (s : FileStore) × (fill healthy four_files ≡ done s)
    × (s.committed ≡ four_files)
    × (s.open_rows ≡ none)
    × (s.count ≡ length four_files)
fill-committed_example = fill-committed healthy four_files healthy-IsHealthy

abbrev two_files : Text → Option ℕ
two_files dir = some 2

abbrev sized : ScanConfig
sized = record { recursive = true; one_file_system = false; min_size = 1; max_size = 0; rules = [] }

find_tree_dups_by_hash_store-SameStored_example :
    Memᴰ root_pair (candidate_pairs in_order (a_one ∷ a_two ∷ b_one ∷ b_two ∷ []))
    × ((is_filtered sized ≡ false)
        ⊎ (IsComplete healthy in_order four_files two_files (codes "/a")
            × IsComplete healthy in_order four_files two_files (codes "/b")))
    × SameStored healthy in_order four_files two_files (codes "/a") (codes "/b")
unfolding find_tree_dups_by_hash_store group memo_at by_path text_lt count_under_dir
find_tree_dups_by_hash_store-SameStored_example =
    find_tree_dups_by_hash_store-SameStored healthy in_order four_files two_files sized
      (root_pair ∷ []) root_pair refl (Memᴰ.head refl)

verify_pairs_mtime_store-fresh_example :
    verify_pairs_mtime_store healthy in_order four_files two_files true
      (root_pair ∷ root_pair ∷ [])
      new_dir_store_checker
    ≡ verify_pairs_fresh healthy in_order four_files two_files true (root_pair ∷ root_pair ∷ [])
verify_pairs_mtime_store-fresh_example =
    verify_pairs_mtime_store-fresh healthy in_order four_files two_files true
      (root_pair ∷ root_pair ∷ []) new_dir_store_checker
      (new-IsTrue healthy in_order four_files two_files)

abbrev skip_logs : List FilterRule
skip_logs =
    record { pattern = codes "*.log"; exclude = true }
    ∷ record { pattern = codes "keep.log"; exclude = false }
    ∷ []

should_exclude-HasLastWord_example :
    (should_exclude (codes "b.log") skip_logs ≡ true) ↔ HasLastWord (codes "b.log") skip_logs
should_exclude-HasLastWord_example = should_exclude-HasLastWord (codes "b.log") skip_logs

match_double_star-fuel_example :
    double_star 9 (codes "a/**/b") (codes "a/c/b")
    ≡ match_double_star (codes "a/**/b") (codes "a/c/b")
match_double_star-fuel_example =
    match_double_star-fuel 9 (codes "a/**/b") (codes "a/c/b") (ground arith)

skip_logs-IsTidy : (r : FilterRule) → Memᴰ r skip_logs → IsTidy r
unfolding trim_space
skip_logs-IsTidy r m = elim (mem-cons_cases m) [
  | inl e ↦ rw e refl
  | inr t ↦ elim (mem-cons_cases t) [ inl e ↦ rw e refl | inr u ↦ elim u [ ] ]
]

-- the content of a file is its size, and the sidecar of `/a/x` tells it
abbrev size_digest : Version → Text
size_digest v = v.1.0 ∷ []

abbrev sample_read : Text → Option Text
sample_read path =
    if list_eq path (codes "/a/y")
    then some (7 ∷ [])
    else if list_eq path (codes "/b/y")
    then some (7 ∷ [])
    else some (5 ∷ [])

abbrev pub sample_storage : Storage
sample_storage = record {
  read_sidecar = λ path.
      if list_eq path (codes "/a/x")
      then some (record { size = 5; mod_time = 9; md5 = 5 ∷ []; chunk_size = 8; chunk_md5 = [] })
      else none;
  md5_file = sample_read;
  selects = λ path. true;
  upserts = λ row. true;
}

abbrev pub new_cache : HashCache
new_cache = record {
  rows = [];
  rehash = false;
  now = 100;
  max_age = 0;
  hits = 0;
  misses = 0;
  sidecar_hits = 0;
}

abbrev changed : Text → Option Text
changed path = some (codes "other")

hash_in_again_example :
    (hash_in (reread sample_storage changed) b_one (hash_in sample_storage b_one new_cache).1).0
    ≡ some (5 ∷ [])
unfolding hash_in sidecar_md5 cached_md5 signed_rank
hash_in_again_example =
    hash_in_again sample_storage changed b_one new_cache (5 ∷ []) refl (ground arith) refl refl refl

-- a version is there if the file of its path has its size
abbrev IsNow : Version → Type 0
IsNow v = sample_read v.0 ≡ some (size_digest v)

some_inj : {A : Type 0} {a b : A} → some a ≡ some b → a ≡ b
some_inj e = ground arith

only : {A : Type 0} {a b : A} → Memᴰ a (b ∷ []) → a ≡ b
only m = elim (mem-cons_cases m) [ inl e ↦ e | inr t ↦ elim t [ ] ]

of_sidecar :
    (f : ScannedFile) (meta : FileMetadata)
    → sample_storage.read_sidecar f.path ≡ some meta
    → meta.size ≡ f.size
    → meta.md5 ≡ f.size ∷ []
of_sidecar f meta e size = elim (Bool-cases (list_eq f.path (codes "/a/x"))) [
  | inl a ↦
      let q = some_inj (rw a at e) in
      ap (λ x. x.md5) (sym q) ∙ ap (λ n. n ∷ []) (ap (λ x. x.size) q ∙ size)
  | inr a ↦ absurd (let z = rw a at e in ground arith)
]

sample-IsHonest : IsHonest sample_storage size_digest IsNow
sample-IsHonest = record {
  reads = λ f h now e. some_inj (sym e ∙ now);
  sidecars = λ f meta now e some_text size mtime. of_sidecar f meta e size;
}

hash_of-TellsContent_example :
    TellsContent
      (hash_of sample_storage)
      (λ f. size_digest (version f))
      (λ f. IsNow (version f))
      (IsValid size_digest IsNow)
hash_of-TellsContent_example = hash_of-TellsContent sample_storage size_digest IsNow sample-IsHonest

abbrev two_trees : DirLookup
two_trees dir =
    if list_eq dir (codes "/a")
    then a_one ∷ a_two ∷ []
    else if list_eq dir (codes "/b")
    then b_one ∷ b_two ∷ []
    else []

two_trees-IsNow : (dir : Text) (f : ScannedFile) → Memᴰ f (two_trees dir) → IsNow (version f)
two_trees-IsNow dir f m = elim (Bool-cases (list_eq dir (codes "/a"))) [
  | inl e ↦ elim (mem-cons_cases (rw e at m)) [ inl q ↦ rw q refl | inr t ↦ rw (only t) refl ]
  | inr e ↦ elim (Bool-cases (list_eq dir (codes "/b"))) [
    | inl d ↦ elim (mem-cons_cases (rw (e, d) at m)) [
      | inl q ↦ rw q refl
      | inr t ↦ rw (only t) refl
    ]
    | inr d ↦ elim (rw (e, d) at m) [ ]
  ]
]

no_rows-IsValid : IsValid size_digest IsNow (some new_cache)
unfolding rows_of
no_rows-IsValid row m = elim m [ ]

verify_tree_pairs_by_content-SameContent_example :
    (p : TreeDupPair) × Memᴰ p (root_pair ∷ [])
    × (record root_pair { verified = true } ≡ record p { verified = true })
    × SameContent (λ f. size_digest (version f)) two_trees p
unfolding verify_tree_pairs_by_content memo_at hash_of hash_in sidecar_md5 cached_md5 row_at
verify_tree_pairs_by_content-SameContent_example =
    verify_tree_pairs_by_content-SameContent (hash_of sample_storage) (λ f. size_digest (version f))
      (λ f. IsNow (version f)) (IsValid size_digest IsNow)
      (hash_of-TellsContent sample_storage size_digest IsNow sample-IsHonest) two_trees
      (root_pair ∷ []) (record root_pair { verified = true } ∷ []) (some new_cache)
      (record root_pair { verified = true }) two_trees-IsNow no_rows-IsValid refl (Memᴰ.head refl)
