-- ===== src/Examples/Finding.antt =====
-- Runs of the detection code (detect.go, store_detect.go, tree_dup.go, overlap.go) on the sample
-- data.
use dup_detector.Prelude.{
  arith, ℕ, ap, ◌≢◌, ◌≡◌, refl, ◌⊎◌, ◌↔◌, true, false, Option, some, List, [], ◌∷◌, ◌++◌, Memᴰ,
  length, in_order, any-false,
}
use dup_detector.Prelude.Grouping.{group}
use dup_detector.Text.{Text, codes, text_lt}
use dup_detector.Files.{ScannedFile, DupGroup, TreeDupPair, OverlapItem, DirOverlapBlock, DirLookup}
use dup_detector.Detect.{SizeQueries, with_source, mtime_dups, mtime_dups_store, checksum_group}
use dup_detector.Detect.Mtime.{IsWanted}
use dup_detector.Detect.Reports.{IsReport, mtime_dups_iff, mtime_dups_store_iff}
use dup_detector.Detect.Checksum.{hash_class, checksum_group_iff}
use dup_detector.Overlap.{build_overlap_blocks}
use dup_detector.Overlap.Blocks.{IsItemOf}
use dup_detector.Overlap.Coverage.{build_overlap_blocks-covers}
use dup_detector.TreeDup.{files_under_dir, remove_sub_pairs_fast}
use dup_detector.TreeDup.Below.{AreSorted}
use dup_detector.TreeDup.Domination.{IsDominated}
use dup_detector.TreeDup.SubPairs.{remove_sub_pairs_fast-covers}
use dup_detector.TreeDup.ByHash.{candidate_pairs, find_tree_dups_by_hash}
use dup_detector.TreeDup.Verified.{SameFiles, find_tree_dups_by_hash-SameFiles}
use dup_detector.Prelude.Runs.{done}
use dup_detector.Examples.{
  b_two, a_two, a_one, b_one, four_files, pair_files, pair_group, other_group, column_of,
}

mtime_dups_iff_example :
    Memᴰ pair_group (mtime_dups in_order (a_one ∷ []) (b_one ∷ []))
    ↔ IsReport true (with_source 0 (a_one ∷ []) ++ with_source 1 (b_one ∷ [])) pair_group
mtime_dups_iff_example = mtime_dups_iff in_order (a_one ∷ []) (b_one ∷ []) pair_group

abbrev pub all_answer : SizeQueries
all_answer = record { collides = true; with_size = λ size. true }

mtime_dups_store_iff_example :
    (groups : List DupGroup) × (mtime_dups_store in_order all_answer
        (with_source 0 (a_one ∷ a_two ∷ []) ++ with_source 1 (b_one ∷ b_two ∷ []))
        true
      ≡ done groups)
    × ((g : DupGroup)
        → Memᴰ g groups ↔ Memᴰ g (mtime_dups in_order (a_one ∷ a_two ∷ []) (b_one ∷ b_two ∷ [])))
mtime_dups_store_iff_example =
    mtime_dups_store_iff in_order in_order all_answer (a_one ∷ a_two ∷ []) (b_one ∷ b_two ∷ []) refl
      (λ size. refl)

abbrev same_hash : ScannedFile → Option Text
same_hash f = some (codes "h")

checksum_group_iff_example :
    Memᴰ pair_group (checksum_group in_order same_hash pair_files 5 true) ↔ (
      (h : Text) × (pair_group ≡ hash_class in_order same_hash pair_files 5 h)
      × IsWanted true pair_files)
checksum_group_iff_example = checksum_group_iff in_order same_hash pair_files 5 true pair_group

abbrev pub root_pair : TreeDupPair
root_pair = record {
  dir_a = codes "/a";
  dir_b = codes "/b";
  file_count = 2;
  total_size = 12;
  verified = false;
}

four_files-AreSorted : AreSorted four_files
unfolding text_lt
four_files-AreSorted = (
  λ g m. any-false (λ f. text_lt f.path a_one.path) (a_two ∷ b_one ∷ b_two ∷ []) refl m,
  (
    λ g m. any-false (λ f. text_lt f.path a_two.path) (b_one ∷ b_two ∷ []) refl m,
    (
      λ g m. any-false (λ f. text_lt f.path b_one.path) (b_two ∷ []) refl m,
      (λ g m. any-false (λ f. text_lt f.path b_two.path) [] refl m, tt),
    ),
  ),
)

find_tree_dups_by_hash-SameFiles_example :
    Memᴰ root_pair (candidate_pairs in_order four_files)
    × SameFiles (codes "/a") (codes "/b") four_files
unfolding find_tree_dups_by_hash group
find_tree_dups_by_hash-SameFiles_example =
    find_tree_dups_by_hash-SameFiles in_order four_files (root_pair ∷ []) root_pair
      four_files-AreSorted refl (Memᴰ.head refl)

abbrev deep_pair : TreeDupPair
deep_pair = record {
  dir_a = codes "/a/c";
  dir_b = codes "/b/c";
  file_count = 1;
  total_size = 1;
  verified = false;
}

remove_sub_pairs_fast-covers_example :
    (Memᴰ deep_pair (remove_sub_pairs_fast in_order (deep_pair ∷ root_pair ∷ []))
      → Memᴰ deep_pair (deep_pair ∷ root_pair ∷ []))
    × (Memᴰ deep_pair (deep_pair ∷ root_pair ∷ [])
        → Memᴰ deep_pair (remove_sub_pairs_fast in_order (deep_pair ∷ root_pair ∷ []))
          ⊎ IsDominated (remove_sub_pairs_fast in_order (deep_pair ∷ root_pair ∷ [])) deep_pair)
remove_sub_pairs_fast-covers_example =
    remove_sub_pairs_fast-covers in_order (deep_pair ∷ root_pair ∷ []) deep_pair

abbrev sample_lookup : DirLookup
sample_lookup dir = files_under_dir dir four_files

abbrev both_groups : List DupGroup
both_groups = pair_group ∷ other_group ∷ []

abbrev shared_block : DirOverlapBlock
shared_block = record {
  root_a = codes "/a";
  root_b = codes "/b";
  items =
      record {
        size = 7;
        a_files =
            record {
              path = codes "/a/y";
              rel_path = codes "y";
              size = 7;
              mod_time = 9;
              inode = 3;
              source = 0;
            }
            ∷ [];
        b_files =
            record {
              path = codes "/b/y";
              rel_path = codes "y";
              size = 7;
              mod_time = 9;
              inode = 4;
              source = 1;
            }
            ∷ [];
      }
      ∷ record { size = 5; a_files = a_one ∷ []; b_files = b_one ∷ [] }
      ∷ [];
  shared_bytes = 12;
}

column_not_empty : codes "/b/m" ≢ []
column_not_empty e =
    let len : length (codes "/b/m") ≡ length {A = ℕ} [] = ap length e in
    absurd (ground (arith, len))

build_overlap_blocks-covers_example :
    Memᴰ other_group (build_overlap_blocks in_order column_of both_groups 30 2).1
    ⊎ ((b : DirOverlapBlock) × Memᴰ b (build_overlap_blocks in_order column_of both_groups 30 2).0
        × (it : OverlapItem) × Memᴰ it b.items
        × IsItemOf column_of b.root_a b.root_b other_group it)
build_overlap_blocks-covers_example =
    build_overlap_blocks-covers in_order column_of both_groups 30 2 1 other_group refl
