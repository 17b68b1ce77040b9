-- ===== src/Overlap/Coverage.antt =====
-- BuildOverlapBlocks loses no group: one that does not remain is an item of a block.
use dup_detector.Prelude.{
  ℕ, zero, suc, ◌+◌, ◌≡◌, refl, ap, ◌∙◌, ◌⊎◌, inl, inr, false, some, List, [], ◌∷◌, map, Memᴰ,
  arith, has, nat_eq, text_eq, pair_eq, get_elem?, has-mem, mem-map, mem-map_inv, mem-cons_cases,
  mem-flat_map_inv, flat_map, Bool-cases, Option-cases, Order,
}
use dup_detector.Text.{Text}
use dup_detector.Files.{ScannedFile, DupGroup, OverlapItem, DirOverlapBlock}
use dup_detector.Overlap.{
  PairKey, Cand, add_candidate, shared_item, candidates, pair_chunks, all_chunks, not_absorbed,
  block_of, block_size_of, min_overlap_of, build_overlap_blocks,
}
use dup_detector.Overlap.Blocks.{IsItemOf, shared_item-IsItemOf, mem-pair_chunks}

mem-not_absorbed_of :
    (absorbed : List ℕ) (i k : ℕ) (groups : List DupGroup) {g : DupGroup}
    → get_elem? groups k ≡ some g
    → has (i + k) absorbed ≡ false
    → Memᴰ g (not_absorbed absorbed i groups)
unfolding not_absorbed
mem-not_absorbed_of absorbed i k [] h a = absurd (ground (arith, h))
mem-not_absorbed_of absorbed i zero (x ∷ groups) h a =
    let here : has i absorbed ≡ false = ap (λ n. has n absorbed) (omega arith) ∙ a in
    rw here (Memᴰ.head (ground (arith, h)))
mem-not_absorbed_of absorbed i (suc k) (x ∷ groups) h a =
    let later : has (suc i + k) absorbed ≡ false = ap (λ n. has n absorbed) (omega arith) ∙ a in
    let rest = mem-not_absorbed_of absorbed (suc i) k groups h later in
    elim (Bool-cases (has i absorbed)) [ inl e ↦ rw e rest | inr e ↦ rw e (Memᴰ.tail rest) ]

module _ (order : Order) (col_of : ScannedFile → Text) where
  candidate_at :
      (i : ℕ) (groups : List DupGroup) (a b : Text) (c : Cand)
      → Memᴰ ((a, b), c) (candidates order col_of i groups)
      → (k : ℕ) × (c.0 ≡ i + k)
        × (g : DupGroup) × (get_elem? groups k ≡ some g)
        × IsItemOf col_of a b g c.1
  unfolding candidates add_candidate
  candidate_at i [] a b c m = elim m [ ]
  candidate_at i (g ∷ groups) a b c m = elim (Option-cases (shared_item order col_of g)) [
    | inl n ↦
        let (k, e, g', h, w) = candidate_at (suc i) groups a b c (rw n at m) in
        (suc k, omega (arith, e), g', h, w)
    | inr (((a', b'), it), e) ↦ elim (mem-cons_cases (rw e at m)) [
      | inl p ↦ (
        zero,
        ground (arith, p),
        g,
        refl,
        shared_item-IsItemOf order col_of g a b c.1 (ground (arith, e, p)),
      )
      | inr t ↦
          let (k, d, g', h, w) = candidate_at (suc i) groups a b c t in
          (suc k, omega (arith, d), g', h, w)
    ]
  ]

  -- Each group either remains, or has its files of two columns as an item of a block between them.
  pub build_overlap_blocks-covers :
      (groups : List DupGroup) (block_size min_overlap k : ℕ) (g : DupGroup)
      → get_elem? groups k ≡ some g
      → Memᴰ g (build_overlap_blocks order col_of groups block_size min_overlap).1
        ⊎ ((b : DirOverlapBlock) × Memᴰ b
              (build_overlap_blocks order col_of groups block_size min_overlap).0
            × (it : OverlapItem) × Memᴰ it b.items
            × IsItemOf col_of b.root_a b.root_b g it)
  unfolding build_overlap_blocks all_chunks block_of
  build_overlap_blocks-covers groups block_size min_overlap k g h =
      let used =
        all_chunks order col_of groups (block_size_of block_size) (min_overlap_of min_overlap) in
      let absorbed = flat_map (λ (c : PairKey × List Cand). map (λ (x : Cand). x.0) c.1) used in
      elim (Bool-cases (has (0 + k) absorbed)) [
        | inr e ↦ inl (mem-not_absorbed_of absorbed 0 k groups h e)
        | inl e ↦
            let (c, n, l) =
              mem-flat_map_inv (λ (c : PairKey × List Cand). map (λ (x : Cand). x.0) c.1) used
                (has-mem (0 + k) absorbed e) in
            let ((a, b), chunk) = c in
            let (x, j, d) = mem-map_inv (λ (x : Cand). x.0) chunk l in
            let (q, r, o) = mem-flat_map_inv (pair_chunks order col_of _ _ _) _ n in
            let (le, from) = mem-pair_chunks order col_of groups _ _ q a b chunk o in
            let (k', d', g', h', w) = candidate_at 0 groups a b x (from x j) in
            let same : k' ≡ k = omega (arith, d, d') in
            let one : g' ≡ g = ground (arith, h, h', same) in
            inr (
              block_of c,
              mem-map block_of used n,
              x.1,
              mem-map (λ (x : Cand). x.1) chunk j,
              rw one at w,
            )
      ]
