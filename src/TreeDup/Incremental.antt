-- ===== src/TreeDup/Incremental.antt =====
-- TreeDupState (tree_dup.go): tree pairs found from duplicate groups, one batch after the other.
-- Pairs are verified one by one, from the files of the lookup; the store's CountUnder and
-- CoverageCheck are not set here (Checked sets them), and progress reports are not modelled.
pub mod Lockstep
pub mod Checked
use dup_detector.Prelude.{
  ℕ, zero, suc, ◌+◌, Bool, true, false, not, ◌&&◌, ◌||◌, Option, none, some, List, [], ◌∷◌, ◌++◌,
  map, if◌then◌else◌, ltb, leb, ◌==◌, length, any, select, has, list_eq, text_eq, nat_eq, pair_eq,
  sort, smaller_first, larger_first, Order,
}
use dup_detector.Text.{Text, codes, slash, text_lt, has_prefix}
use dup_detector.Text.Paths.{clean, dir}
use dup_detector.Files.{ScannedFile, DupGroup, TreeDupPair, DirLookup, add64, signed_rank}
use dup_detector.TreeDup.{Partners, tree_dominated, add_partners, path_length}

-- dirKey, the smaller directory first
abbrev pub DirKey : Type 0
DirKey = Text × Text

unfoldable pub new_dir_key : Text → Text → DirKey
unfolding text_lt
new_dir_key x y = if text_lt x y then (x, y) else (y, x)

abbrev pub Index : Type 0
Index = List (Text × List Text)

pub record TreeDupState : Type 0 where
  pub dup_index : Index
  pub checked_pairs : List DirKey
  pub confirmed : List TreeDupPair
  pub partner_of : Partners

-- NewTreeDupState
unfoldable pub new_tree_dup_state : TreeDupState
new_tree_dup_state = record { dup_index = []; checked_pairs = []; confirmed = []; partner_of = [] }

-- addConfirmed
unfoldable pub add_confirmed : TreeDupPair → TreeDupState → TreeDupState
unfolding add_partners
add_confirmed p s = record s {
  confirmed = s.confirmed ++ p ∷ [];
  partner_of = add_partners p s.partner_of;
}

-- AddConfirmed
unfoldable pub add_all_confirmed : List TreeDupPair → TreeDupState → TreeDupState
unfolding add_confirmed
add_all_confirmed [] s = s
add_all_confirmed (p ∷ pairs) s = add_all_confirmed pairs (add_confirmed p s)

-- dupIndex[path] and its write
unfoldable pub members_at : Text → Index → List Text
members_at path [] = []
members_at path ((k, v) ∷ index) =
    let rest = members_at path index in if list_eq k path then v else rest

unfoldable pub index_files : List Text → List ScannedFile → Index → Index
index_files members [] index = index
index_files members (f ∷ files) index = index_files members files ((f.path, members) ∷ index)

unfoldable pub index_groups : List DupGroup → Index → Index
unfolding index_files
index_groups [] index = index
index_groups (g ∷ groups) index =
    index_groups groups (index_files (map (λ f. f.path) g.files) g.files index)

-- the directories of a group, 50 at most
unfoldable pub unique_dirs : List ScannedFile → List Text → List Text
unfolding dir
unique_dirs [] dirs = dirs
unique_dirs (f ∷ files) dirs =
    let d = dir f.path in
    let same = unique_dirs files dirs in
    let more = unique_dirs files (dirs ++ d ∷ []) in
    if has d dirs then same else if length dirs + 1 == 50 then dirs ++ d ∷ [] else more

unfoldable pub insert_key : DirKey → List DirKey → List DirKey
insert_key k keys = if has k keys then keys else keys ++ k ∷ []

unfoldable pub at_top : Text → Bool
at_top d = list_eq d (codes ".") || list_eq d (slash ∷ [])

-- the loop over the depth
unfoldable pub climb : ℕ → Text → Text → List DirKey → List DirKey
unfolding at_top insert_key new_dir_key dir
climb zero da db keys = keys
climb (suc depth) da db keys =
    let above = climb depth (dir da) (dir db) (insert_key (new_dir_key da db) keys) in
    if at_top da || at_top db || list_eq da db then keys else above

unfoldable pub climb_each : Text → List Text → List DirKey → List DirKey
unfolding climb
climb_each da [] keys = keys
climb_each da (db ∷ dirs) keys = climb_each da dirs (climb 12 da db keys)

unfoldable pub dir_pairs : List Text → List DirKey → List DirKey
unfolding climb_each
dir_pairs [] keys = keys
dir_pairs (da ∷ dirs) keys = dir_pairs dirs (climb_each da dirs keys)

-- newCandidatePairs
unfoldable pub new_candidate_pairs : List DupGroup → List DirKey → List DirKey
unfolding unique_dirs dir_pairs
new_candidate_pairs [] keys = keys
new_candidate_pairs (g ∷ groups) keys =
    new_candidate_pairs groups (dir_pairs (unique_dirs g.files []) keys)

-- another member of the file's group lies below the prefix
unfoldable pub covered : Text → Index → ScannedFile → Bool
unfolding members_at has_prefix
covered prefix index f =
    any (λ dup. not (list_eq dup f.path) && has_prefix dup prefix) (members_at f.path index)

-- allCoveredByIndex
unfoldable pub all_covered_by_index : List ScannedFile → Text → Index → Bool
unfolding covered clean
all_covered_by_index [] dir index = true
all_covered_by_index (f ∷ files) dir index =
    covered (clean dir ++ slash ∷ []) index f && all_covered_by_index files dir index

unfoldable pub sum_file_sizes : List ScannedFile → ℕ → ℕ
unfolding add64
sum_file_sizes [] total = total
sum_file_sizes (f ∷ files) total = sum_file_sizes files (add64 total f.size)

-- verifyPair
unfoldable pub verify_pair : DirLookup → Index → Bool → DirKey → Option TreeDupPair
unfolding all_covered_by_index sum_file_sizes
verify_pair lookup index verified (a, b) =
    let files_a = lookup a in
    let files_b = lookup b in
    if length files_a == 0 || not (length files_a == length files_b)
    then none
    else if not (all_covered_by_index files_a b index)
    then none
    else if not (all_covered_by_index files_b a index)
    then none
    else some (record {
      dir_a = a;
      dir_b = b;
      file_count = length files_a;
      total_size = sum_file_sizes files_a 0;
      verified = verified;
    })

unfoldable pub with_found : Option TreeDupPair → List TreeDupPair → List TreeDupPair
with_found none rest = rest
with_found (some p) rest = p ∷ rest

unfoldable pub verify_pairs : DirLookup → Index → Bool → List DirKey → List TreeDupPair
unfolding verify_pair with_found
verify_pairs lookup index verified [] = []
verify_pairs lookup index verified (k ∷ keys) =
    with_found (verify_pair lookup index verified k) (verify_pairs lookup index verified keys)

-- the loop over the new pairs: those that are kept, and the state
unfoldable pub keep_new : List TreeDupPair → TreeDupState → List TreeDupPair × TreeDupState
unfolding tree_dominated add_confirmed
keep_new [] s = ([], s)
keep_new (p ∷ pairs) s =
    let skipped = keep_new pairs s in
    let (kept, s') = keep_new pairs (add_confirmed p s) in
    if tree_dominated s.partner_of p.dir_a p.dir_b then skipped else (p ∷ kept, s')

-- the candidates that no batch has checked
unfoldable pub unchecked : Order → List DupGroup → TreeDupState → List DirKey
unfolding new_candidate_pairs
unchecked order groups s =
    select (λ k. not (has k s.checked_pairs)) (order.visit _ (new_candidate_pairs groups []))

-- the state with the batch in its index, and its candidates checked
unfoldable pub marked : Order → List DupGroup → TreeDupState → TreeDupState
unfolding index_groups unchecked
marked order groups s = record s {
  dup_index = index_groups groups s.dup_index;
  checked_pairs = s.checked_pairs ++ unchecked order groups s;
}

-- the verified pairs, shortest paths first
unfoldable pub found_pairs :
    Order → List DupGroup → DirLookup → Bool → TreeDupState → List TreeDupPair
unfolding index_groups unchecked verify_pairs sort
found_pairs order groups lookup verified s = sort (smaller_first path_length) (
    order.visit _
      (verify_pairs lookup (index_groups groups s.dup_index) verified (unchecked order groups s)))

-- AddGroups
unfoldable pub add_groups :
    Order → List DupGroup → DirLookup → Bool → TreeDupState → List TreeDupPair × TreeDupState
unfolding marked found_pairs keep_new sort
add_groups order [] lookup verified s = ([], s)
add_groups order (g ∷ groups) lookup verified s =
    let (kept, s') =
      keep_new (found_pairs order (g ∷ groups) lookup verified s) (marked order (g ∷ groups) s) in
    (sort (larger_first (λ p. signed_rank p.total_size)) (order.visit _ kept), s')
