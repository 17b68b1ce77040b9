-- ===== src/TreeDup/SubPairs.antt =====
-- removeSubPairsFast drops a pair only if a pair that it keeps dominates it.
use dup_detector.Prelude.{
  ◌≡◌, ◌⊎◌, inl, inr, Bool, true, ◌||◌, List, [], ◌∷◌, Memᴰ, arith, leb, length, any, any-of,
  any-true, list_eq, text_eq, Bool-cases, mem_of_perm, perm-sym, mem-cons_cases, mem-append_left,
  sort, mem-sort, mem-sort_of, smaller_first, Order,
}
use dup_detector.Prelude.Grouping.{append_at, value_at, value_at-append_at}
use dup_detector.Text.{Text, is_subdir}
use dup_detector.Files.{TreeDupPair}
use dup_detector.TreeDup.Domination.{partners_from, IsDominated, tree_dominated-IsDominated}
use dup_detector.TreeDup.{
  Partners, ancestors, reaches, tree_dominated, add_partners, keep_top, path_length,
  remove_sub_pairs_fast,
}

-- Every partner in the first table is in the second.
abbrev pub Extends : Partners → Partners → Type 0
Extends m n = (k p : Text) → Memᴰ p (value_at k m) → Memᴰ p (value_at k n)

append_at-Extends : (k x : Text) (m : Partners) → Extends m (append_at k x m)
append_at-Extends k x m j p h = elim (Bool-cases (list_eq k j)) [
  | inl e ↦ rw (value_at-append_at j k x m, e) (mem-append_left (value_at j m) (x ∷ []) h)
  | inr e ↦ rw (value_at-append_at j k x m, e) h
]

add_partners-Extends : (p : TreeDupPair) (m : Partners) → Extends m (add_partners p m)
unfolding add_partners
add_partners-Extends p m k q h =
    append_at-Extends p.dir_b p.dir_a _ k q (append_at-Extends p.dir_a p.dir_b m k q h)

partners_from-Extends :
    (m : Partners) (pairs : List TreeDupPair) → Extends m (partners_from m pairs)
partners_from-Extends m [] k q h = h
partners_from-Extends m (p ∷ pairs) k q h =
    partners_from-Extends (add_partners p m) pairs k q (add_partners-Extends p m k q h)

reaches-Extends :
    (m n : Partners) (a b : Text) → Extends m n → reaches m a b ≡ true → reaches n a b ≡ true
unfolding reaches
reaches-Extends m n a b ext h =
    let below : Text → Bool = λ p. list_eq p b || is_subdir p b in
    let (w, k, e) = any-true (λ w. any below (value_at w m)) (ancestors (length a) a) h in
    let (p, l, d) = any-true below (value_at w m) e in
    any-of (λ w. any below (value_at w n)) (ancestors (length a) a) k
      (any-of below (value_at w n) (ext w p l) d)

dominated-Extends :
    (m n : Partners) (a b : Text)
    → Extends m n
    → tree_dominated m a b ≡ true
    → tree_dominated n a b ≡ true
unfolding tree_dominated
dominated-Extends m n a b ext h = elim (Bool-cases (reaches m a b)) [
  | inl e ↦ let k = reaches-Extends m n a b ext e in ground arith
  | inr e ↦ let k = reaches-Extends m n b a ext (ground arith) in ground arith
]

keep_top-covers :
    (m : Partners) (pairs : List TreeDupPair) {p : TreeDupPair}
    → Memᴰ p pairs
    → Memᴰ p (keep_top m pairs)
      ⊎ (tree_dominated (partners_from m (keep_top m pairs)) p.dir_a p.dir_b ≡ true)
unfolding keep_top
keep_top-covers m [] h = elim h [ ]
keep_top-covers m (q ∷ pairs) {p = p} h = elim (Bool-cases (tree_dominated m q.dir_a q.dir_b)) [
  | inl e ↦ elim (mem-cons_cases h) [
    | inl s ↦ rw e (
        inr (
          dominated-Extends m _ p.dir_a p.dir_b (partners_from-Extends m (keep_top m pairs))
            (rw s e)))
    | inr t ↦ rw e (keep_top-covers m pairs t)
  ]
  | inr e ↦ elim (mem-cons_cases h) [
    | inl s ↦ rw e (inl (Memᴰ.head s))
    | inr t ↦ rw e (elim (keep_top-covers (add_partners q m) pairs t) [
      | inl k ↦ inl (Memᴰ.tail k)
      | inr d ↦ inr d
    ])
  ]
]

keep_top-within :
    (m : Partners) (pairs : List TreeDupPair) {p : TreeDupPair}
    → Memᴰ p (keep_top m pairs)
    → Memᴰ p pairs
unfolding keep_top
keep_top-within m [] h = elim h [ ]
keep_top-within m (q ∷ pairs) h = elim (Bool-cases (tree_dominated m q.dir_a q.dir_b)) [
  | inl e ↦ Memᴰ.tail (keep_top-within m pairs (rw e at h))
  | inr e ↦ elim (mem-cons_cases (rw e at h)) [
    | inl s ↦ Memᴰ.head s
    | inr t ↦ Memᴰ.tail (keep_top-within (add_partners q m) pairs t)
  ]
]

-- The pairs that are left are among the given ones, and a given pair that is not left has its directories
-- within those of one of the pairs that are.
pub remove_sub_pairs_fast-covers :
    (order : Order) (pairs : List TreeDupPair) (p : TreeDupPair)
    → (Memᴰ p (remove_sub_pairs_fast order pairs) → Memᴰ p pairs)
      × (Memᴰ p pairs
          → Memᴰ p (remove_sub_pairs_fast order pairs)
            ⊎ IsDominated (remove_sub_pairs_fast order pairs) p)
unfolding remove_sub_pairs_fast
remove_sub_pairs_fast-covers order pairs p = elim (Bool-cases (leb (length pairs) 1)) [
  | inl e ↦ rw e (λ h. h, λ h. inl h)
  | inr e ↦
      let sorted = sort (smaller_first path_length) (order.visit _ pairs) in
      rw e (
        λ h.
            mem_of_perm (order.visit-perm _ pairs)
              (mem-sort (smaller_first path_length) _ (keep_top-within [] sorted h)),
        λ h.
            let m =
              mem-sort_of (smaller_first path_length) _
                (mem_of_perm (perm-sym (order.visit-perm _ pairs)) h) in
            elim (keep_top-covers [] sorted m) [
              | inl k ↦ inl k
              | inr d ↦ inr (tree_dominated-IsDominated (keep_top [] sorted) p d)
            ],
      )
]
