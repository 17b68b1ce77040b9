-- ===== src/TreeDup/Incremental/Lockstep.antt =====
-- The partner table follows the confirmed pairs, and a pair that a batch adds was verified.
use dup_detector.Prelude.{
  ◌≤◌, ◌≡◌, refl, sym, ap, ◌∙◌, inl, inr, Bool, true, not, ◌||◌, some, List, [], ◌∷◌, ◌++◌, Memᴰ,
  arith, ◌==◌, length, pair_eq, Bool-cases, Option-cases, mem_of_perm, mem-cons_cases, mem-sort,
  smaller_first, Order,
}
use dup_detector.Files.{DupGroup, TreeDupPair, DirLookup}
use dup_detector.TreeDup.{Partners, tree_dominated, add_partners, path_length}
use dup_detector.TreeDup.Domination.{partners_from}
use dup_detector.TreeDup.Incremental.{
  DirKey, Index, TreeDupState, new_tree_dup_state, add_confirmed, add_all_confirmed, index_groups,
  all_covered_by_index, verify_pair, verify_pairs, keep_new, add_groups, with_found, unchecked,
  marked, found_pairs, sum_file_sizes,
}

-- partnerOf holds exactly the partners of the confirmed pairs.
abbrev pub InStep : TreeDupState → Type 0
InStep s = s.partner_of ≡ partners_from [] s.confirmed

partners_from-last :
    (m : Partners) (pairs : List TreeDupPair) (p : TreeDupPair)
    → partners_from m (pairs ++ p ∷ []) ≡ add_partners p (partners_from m pairs)
partners_from-last m [] p = refl
partners_from-last m (q ∷ pairs) p = partners_from-last (add_partners q m) pairs p

add_confirmed-InStep : (p : TreeDupPair) (s : TreeDupState) → InStep s → InStep (add_confirmed p s)
unfolding add_confirmed
add_confirmed-InStep p s h = ap (add_partners p) h ∙ sym (partners_from-last [] s.confirmed p)

add_all_confirmed-InStep :
    (pairs : List TreeDupPair) (s : TreeDupState) → InStep s → InStep (add_all_confirmed pairs s)
unfolding add_all_confirmed
add_all_confirmed-InStep [] s h = h
add_all_confirmed-InStep (p ∷ pairs) s h =
    add_all_confirmed-InStep pairs (add_confirmed p s) (add_confirmed-InStep p s h)

keep_new-InStep :
    (pairs : List TreeDupPair) (s : TreeDupState) → InStep s → InStep (keep_new pairs s).1
unfolding keep_new
keep_new-InStep [] s h = h
keep_new-InStep (p ∷ pairs) s h = elim (Bool-cases (tree_dominated s.partner_of p.dir_a p.dir_b)) [
  | inl e ↦ rw e (keep_new-InStep pairs s h)
  | inr e ↦ rw e (keep_new-InStep pairs (add_confirmed p s) (add_confirmed-InStep p s h))
]

keep_new-index :
    (pairs : List TreeDupPair) (s : TreeDupState) → (keep_new pairs s).1.dup_index ≡ s.dup_index
unfolding keep_new add_confirmed
keep_new-index [] s = refl
keep_new-index (p ∷ pairs) s = elim (Bool-cases (tree_dominated s.partner_of p.dir_a p.dir_b)) [
  | inl e ↦ rw e (keep_new-index pairs s)
  | inr e ↦ rw e (keep_new-index pairs (add_confirmed p s))
]

keep_new-within :
    (pairs : List TreeDupPair) (s : TreeDupState) {p : TreeDupPair}
    → Memᴰ p (keep_new pairs s).0
    → Memᴰ p pairs
unfolding keep_new
keep_new-within [] s m = m
keep_new-within (q ∷ pairs) s m = elim (Bool-cases (tree_dominated s.partner_of q.dir_a q.dir_b)) [
  | inl e ↦ Memᴰ.tail (keep_new-within pairs s (rw e at m))
  | inr e ↦ elim (mem-cons_cases (rw e at m)) [
    | inl d ↦ Memᴰ.head d
    | inr t ↦ Memᴰ.tail (keep_new-within pairs (add_confirmed q s) t)
  ]
]

-- The trees have as many files, and each file of one is in a group with another file, in the other.
abbrev pub IsCovered : DirLookup → Index → TreeDupPair → Type 0
IsCovered lookup index p =
    (1 ≤ length (lookup p.dir_a))
    × (length (lookup p.dir_a) ≡ length (lookup p.dir_b))
    × (all_covered_by_index (lookup p.dir_a) p.dir_b index ≡ true)
    × (all_covered_by_index (lookup p.dir_b) p.dir_a index ≡ true)
    × (p.file_count ≡ length (lookup p.dir_a))

verify_pair-IsCovered :
    (lookup : DirLookup) (index : Index) (verified : Bool) (k : DirKey) (p : TreeDupPair)
    → verify_pair lookup index verified k ≡ some p
    → IsCovered lookup index p
unfolding verify_pair
verify_pair-IsCovered lookup index verified (a, b) p h =
    elim (Bool-cases (length (lookup a) == 0 || not (length (lookup a) == length (lookup b)))) [
      | inl e ↦ absurd (ground (arith, e))
      | inr e ↦ elim (Bool-cases (all_covered_by_index (lookup a) b index)) [
        | inr c ↦ absurd (ground (arith, e, c))
        | inl c ↦ elim (Bool-cases (all_covered_by_index (lookup b) a index)) [
          | inr d ↦ absurd (ground (arith, e, c, d))
          | inl d ↦
              let found : TreeDupPair = record {
                dir_a = a;
                dir_b = b;
                file_count = length (lookup a);
                total_size = sum_file_sizes (lookup a) 0;
                verified = verified;
              } in
              let same : found ≡ p = ground (arith, e, c, d) in
              rw (← same) (ground (arith, e), ground (arith, e), c, d, refl)
        ]
      ]
    ]

verify_pairs-IsCovered :
    (lookup : DirLookup) (index : Index) (verified : Bool) (keys : List DirKey) {p : TreeDupPair}
    → Memᴰ p (verify_pairs lookup index verified keys)
    → IsCovered lookup index p
unfolding verify_pairs with_found
verify_pairs-IsCovered lookup index verified [] m = elim m [ ]
verify_pairs-IsCovered lookup index verified (k ∷ keys) {p = p} m =
    elim (Option-cases (verify_pair lookup index verified k)) [
      | inl n ↦ verify_pairs-IsCovered lookup index verified keys (rw n at m)
      | inr (q, e) ↦ elim (mem-cons_cases (rw e at m)) [
        | inl d ↦ verify_pair-IsCovered lookup index verified k p (e ∙ ap some (sym d))
        | inr t ↦ verify_pairs-IsCovered lookup index verified keys t
      ]
    ]

found_pairs-IsCovered :
    (order : Order) (groups : List DupGroup) (lookup : DirLookup) (verified : Bool)
    (s : TreeDupState) {p : TreeDupPair}
    → Memᴰ p (found_pairs order groups lookup verified s)
    → IsCovered lookup (marked order groups s).dup_index p
unfolding found_pairs marked
found_pairs-IsCovered order groups lookup verified s m =
    let index = index_groups groups s.dup_index in
    let keys = unchecked order groups s in
    let listed = mem-sort (smaller_first path_length) _ m in
    verify_pairs-IsCovered lookup index verified keys
      (mem_of_perm (order.visit-perm _ (verify_pairs lookup index verified keys)) listed)

-- A batch of groups keeps the partner table in step with the confirmed pairs; so do confirmed
-- pairs from elsewhere, and the empty state is in step.
pub add_groups-InStep :
    (order : Order) (groups : List DupGroup) (lookup : DirLookup) (verified : Bool)
    (pairs : List TreeDupPair) (s : TreeDupState)
    → InStep s
    → InStep (add_groups order groups lookup verified s).1
      × InStep (add_all_confirmed pairs s)
      × InStep new_tree_dup_state
unfolding add_groups new_tree_dup_state marked
add_groups-InStep order [] lookup verified pairs s h = (h, add_all_confirmed-InStep pairs s h, refl)
add_groups-InStep order (g ∷ groups) lookup verified pairs s h =
    let found = found_pairs order (g ∷ groups) lookup verified s in
    (
      keep_new-InStep found (marked order (g ∷ groups) s) h,
      add_all_confirmed-InStep pairs s h,
      refl,
    )

-- A pair that a batch of groups reports has two trees with equally many files, at least one, each
-- of which is in a group with a different file that lies in the other tree, by the index that the
-- batch leaves.
pub add_groups-IsCovered :
    (order : Order) (groups : List DupGroup) (lookup : DirLookup) (verified : Bool)
    (s : TreeDupState) (p : TreeDupPair)
    → Memᴰ p (add_groups order groups lookup verified s).0
    → IsCovered lookup (add_groups order groups lookup verified s).1.dup_index p
unfolding add_groups
add_groups-IsCovered order [] lookup verified s p m = elim m [ ]
add_groups-IsCovered order (g ∷ groups) lookup verified s p m =
    let found = found_pairs order (g ∷ groups) lookup verified s in
    let start = marked order (g ∷ groups) s in
    let kept = mem_of_perm (order.visit-perm _ (keep_new found start).0) (mem-sort _ _ m) in
    rw (keep_new-index found start) (
      found_pairs-IsCovered order (g ∷ groups) lookup verified s (keep_new-within found start kept))
