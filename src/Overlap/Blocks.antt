-- ===== src/Overlap/Blocks.antt =====
-- What a block of BuildOverlapBlocks holds: items of whole groups, split by two columns.
use dup_detector.Prelude.{
  ℕ, suc, ◌≤◌, ◌≡◌, ◌≢◌, refl, ap, ◌∙◌, inl, inr, not, some, List, [], ◌∷◌, map, Memᴰ, arith, ltb,
  length, select, list_eq, list_eq_self, text_eq, pair_eq, Bool-cases, Option-cases, length-map,
  mem-map_inv, mem-cons_cases, mem-flat_map_inv, chunk-within, sort, sort-perm, mem-sort,
  larger_first, Order, Distinct, Distinct-perm, perm-sym, Permᴰ,
}
use dup_detector.Prelude.Grouping.{group, value_at, values_for, value_at-group, Distinct-group}
use dup_detector.Text.{Text, text_lt}
use dup_detector.Files.{ScannedFile, DupGroup, OverlapItem, DirOverlapBlock, signed_rank}
use dup_detector.Overlap.{
  PairKey, Cand, by_column, item_between, block_of, shared_item, add_candidate, candidates,
  pair_chunks, all_chunks, block_size_of, build_overlap_blocks,
}

-- the files of a group in a column, none if the column is empty
abbrev pub column : (ScannedFile → Text) → Text → List ScannedFile → List ScannedFile
column col_of c files =
    select (λ f. list_eq (col_of f) c) (select (λ f. not (list_eq (col_of f) [])) files)

values_for-column :
    (col_of : ScannedFile → Text) (c : Text) (files : List ScannedFile)
    → values_for c (map (λ f. (col_of f, f)) files) ≡ select (λ f. list_eq (col_of f) c) files
values_for-column col_of c [] = refl
values_for-column col_of c (f ∷ files) = ground (arith, values_for-column col_of c files)

value_at-by_column :
    (col_of : ScannedFile → Text) (c : Text) (files : List ScannedFile)
    → value_at c (by_column col_of files) ≡ column col_of c files
unfolding by_column
value_at-by_column col_of c files =
    value_at-group c (map (λ f. (col_of f, f)) (select (λ f. not (list_eq (col_of f) [])) files))
    ∙ values_for-column col_of c (select (λ f. not (list_eq (col_of f) [])) files)

-- The item holds a group's files of two different columns.
abbrev pub IsItemOf : (ScannedFile → Text) → Text → Text → DupGroup → OverlapItem → Type 0
IsItemOf col_of a b g it =
    (it.size ≡ g.size)
    × (it.a_files ≡ column col_of a g.files)
    × (it.b_files ≡ column col_of b g.files)
    × (a ≢ b)

module _ (order : Order) (col_of : ScannedFile → Text) where
  item_between-IsItemOf :
      (g : DupGroup) (cols : List Text) (a b : Text) (it : OverlapItem)
      → Distinct cols
      → item_between g (by_column col_of g.files) cols ≡ some ((a, b), it)
      → IsItemOf col_of a b g it
  unfolding item_between
  item_between-IsItemOf g (x ∷ y ∷ []) a b it d h =
      let v = value_at-by_column col_of x g.files in
      let w = value_at-by_column col_of y g.files in
      (ground arith, ground (arith, v), ground (arith, w), λ e. ground (arith, d.0, list_eq_self x))
  item_between-IsItemOf g [] a b it d h = absurd (ground arith)
  item_between-IsItemOf g (x ∷ []) a b it d h = absurd (ground arith)
  item_between-IsItemOf g (x ∷ y ∷ z ∷ cols) a b it d h = absurd (ground arith)

  pub shared_item-IsItemOf :
      (g : DupGroup) (a b : Text) (it : OverlapItem)
      → shared_item order col_of g ≡ some ((a, b), it)
      → IsItemOf col_of a b g it
  unfolding shared_item by_column
  shared_item-IsItemOf g a b it h =
      let keys = map {A = Text × List ScannedFile} (λ e. e.0) (by_column col_of g.files) in
      let moved : Permᴰ keys (sort text_lt (order.visit _ keys)) =
        perm-sym (Permᴰ.trans (sort-perm text_lt (order.visit _ keys)) (order.visit-perm _ keys)) in
      item_between-IsItemOf g (sort text_lt (order.visit _ keys)) a b it
        (Distinct-perm moved (Distinct-group _)) h

  mem-candidates :
      (gi : ℕ) (groups : List DupGroup) (a b : Text) (c : Cand)
      → Memᴰ ((a, b), c) (candidates order col_of gi groups)
      → (g : DupGroup) × Memᴰ g groups × IsItemOf col_of a b g c.1
  unfolding candidates add_candidate
  mem-candidates gi [] a b c m = elim m [ ]
  mem-candidates gi (g ∷ groups) a b c m = elim (Option-cases (shared_item order col_of g)) [
    | inl n ↦
        let (h, k, w) = mem-candidates (suc gi) groups a b c (rw n at m) in (h, Memᴰ.tail k, w)
    | inr (((a', b'), it), e) ↦ elim (mem-cons_cases (rw e at m)) [
      | inl p ↦ (g, Memᴰ.head refl, shared_item-IsItemOf g a b c.1 (ground (arith, e, p)))
      | inr t ↦ let (h, k, w) = mem-candidates (suc gi) groups a b c t in (h, Memᴰ.tail k, w)
    ]
  ]

  values_for-mem :
      (pk : PairKey) (c : Cand) (ps : List (PairKey × Cand))
      → Memᴰ c (values_for pk ps)
      → Memᴰ (pk, c) ps
  values_for-mem pk c [] m = elim m [ ]
  values_for-mem pk c ((j, x) ∷ ps) m = elim (Bool-cases (pair_eq.beq j pk)) [
    | inl e ↦ elim (mem-cons_cases (rw e at m)) [
      | inl p ↦
          let same : j ≡ pk = ((pair_eq {A = Text} {B = Text}).beq_iff j pk).0 e in
          Memᴰ.head (ground arith)
      | inr t ↦ Memᴰ.tail (values_for-mem pk c ps t)
    ]
    | inr e ↦ Memᴰ.tail (values_for-mem pk c ps (rw e at m))
  ]

  pub mem-pair_chunks :
      (groups : List DupGroup) (block_size min_overlap : ℕ) (q : PairKey) (a b : Text)
      (chunk : List Cand)
      → Memᴰ
          ((a, b), chunk)
          (pair_chunks order col_of block_size min_overlap
            (group (candidates order col_of 0 groups))
            q)
      → (length chunk ≤ block_size)
        × ((c : Cand) → Memᴰ c chunk → Memᴰ ((a, b), c) (candidates order col_of 0 groups))
  unfolding pair_chunks
  mem-pair_chunks groups block_size min_overlap q a b chunk m =
      let pairs = candidates order col_of 0 groups in
      let cs = value_at q (group pairs) in
      elim (Bool-cases (ltb (signed_rank (length cs)) (signed_rank min_overlap))) [
        | inl e ↦ elim (rw e at m) [ ]
        | inr e ↦
            let (c, n, p) = mem-map_inv (λ (c : List Cand). (q, c)) _ (rw e at m) in
            let (le, sub) =
              chunk-within (length cs) block_size
                (sort (larger_first (λ (c : Cand). signed_rank c.1.size)) cs) n in
            (
              ground arith,
              λ x k.
                  let inside : Memᴰ x cs = mem-sort _ cs (sub x (rw (ap (λ z. z.1) p) at k)) in
                  let listed = values_for-mem q x pairs (rw (value_at-group q pairs) at inside) in
                  rw (← ap (λ z. z.0) p) at listed,
            )
      ]

  -- A block holds at most as many items as the limit says, and each item is made of one group: its
  -- two sides are the group's files in the block's two columns, which differ.
  pub build_overlap_blocks-items :
      (groups : List DupGroup) (block_size min_overlap : ℕ) (b : DirOverlapBlock)
      → Memᴰ b (build_overlap_blocks order col_of groups block_size min_overlap).0
      → (length b.items ≤ block_size_of block_size)
        × ((it : OverlapItem)
            → Memᴰ it b.items
            → (g : DupGroup) × Memᴰ g groups × IsItemOf col_of b.root_a b.root_b g it)
  unfolding build_overlap_blocks all_chunks block_of
  build_overlap_blocks-items groups block_size min_overlap b m =
      let (used, n, e) = mem-map_inv block_of _ m in
      let ((x, y), chunk) = used in
      let (q, k, l) = mem-flat_map_inv (pair_chunks order col_of _ _ _) _ n in
      let (le, from) = mem-pair_chunks groups _ _ q x y chunk l in
      rw e (
        rw (length-map (λ (c : Cand). c.1) chunk) le,
        λ it i.
            let (c, j, p) = mem-map_inv (λ (c : Cand). c.1) chunk i in
            rw p (mem-candidates 0 groups x y c (from c j)),
      )
