-- ===== src/TreeDup/Domination.antt =====
-- What treeDominated (tree_dup.go) means for the pairs that partnerOf was filled from.
use dup_detector.Prelude.{
  some_inj, ==_iff, ℕ, zero, suc, some, ap, sym, refl, ◌∙◌, ◌++◌, drop, take, ◌==◌, Option-cases,
  mem-append_cases, list_eq_iff, ◌≡◌, ◌⊎◌, inl, inr, Bool, true, ◌||◌, List, [], ◌∷◌, Memᴰ, arith,
  length, any, any-true, list_eq, text_eq, Bool-cases, mem-cons_cases,
}
use mathlib.Core.List.{append_assoc}
use dup_detector.Prelude.Grouping.{append_at, value_at, value_at-append_at}
use dup_detector.Text.{Text, slash, last_index_byte, is_subdir}
use dup_detector.Text.Laws.{is_subdir-inv}
use dup_detector.Files.{TreeDupPair}
use dup_detector.TreeDup.{Partners, ancestors, reaches, tree_dominated, add_partners}

-- the partners that the kept pairs bring, after those of `m`
abbrev pub partners_from : Partners → List TreeDupPair → Partners
partners_from m [] = m
partners_from m (p ∷ pairs) = partners_from (add_partners p m) pairs

-- The directory is the other one, or its path is that of the other, a slash and more.
abbrev pub IsWithin : Text → Text → Type 0
IsWithin dir outer = (dir ≡ outer) ⊎ ((r : Text) × (dir ≡ outer ++ slash ∷ r))

-- The two directories are those of the pair, in one order or the other.
abbrev pub AreOf : TreeDupPair → Text → Text → Type 0
AreOf q x y = ((x ≡ q.dir_a) × (y ≡ q.dir_b)) ⊎ ((x ≡ q.dir_b) × (y ≡ q.dir_a))

-- The directories of the pair are within those of a pair of the list, one in each.
abbrev pub IsDominated : List TreeDupPair → TreeDupPair → Type 0
IsDominated pairs p =
    (q : TreeDupPair) × (x : Text) × (y : Text) × Memᴰ q pairs
    × AreOf q x y
    × IsWithin p.dir_a x
    × IsWithin p.dir_b y

IsWithin-trans : (a b c : Text) → IsWithin a b → IsWithin b c → IsWithin a c
IsWithin-trans a b c (inl e) h = rw e h
IsWithin-trans a b c (inr (r, e)) (inl d) = inr (r, e ∙ ap (λ u. u ++ slash ∷ r) d)
IsWithin-trans a b c (inr (r, e)) (inr (t, d)) =
    inr (t ++ slash ∷ r, e ∙ (ap (λ u. u ++ slash ∷ r) d ∙ append_assoc c (slash ∷ t) (slash ∷ r)))

last_index_byte-cut :
    (s : Text) (c i : ℕ) → last_index_byte s c ≡ some i → s ≡ take i s ++ c ∷ drop (suc i) s
unfolding last_index_byte
last_index_byte-cut [] c i h = absurd (ground (arith, h))
last_index_byte-cut (x ∷ s) c i h = elim (Option-cases (last_index_byte s c)) [
  | inr (k, e) ↦
      let q : suc k ≡ i = some_inj (rw (last_index_byte, e) at h) in
      rw (← q) (ap (◌∷◌ x) (last_index_byte-cut s c k e))
  | inl e ↦ elim (Bool-cases (x == c)) [
    | inr d ↦ absurd (let h' = rw (last_index_byte, e, d) at h in ground (arith, h'))
    | inl d ↦
        let q : 0 ≡ i = some_inj (rw (last_index_byte, e, d) at h) in
        let same = (==_iff x c).0 d in rw (← q) (ap (λ y. y ∷ s) same)
  ]
]

ancestors-IsWithin : (fuel : ℕ) (from w : Text) → Memᴰ w (ancestors fuel from) → IsWithin from w
unfolding ancestors
ancestors-IsWithin zero from w m = elim m [ ]
ancestors-IsWithin (suc fuel) [] w m = elim m [ ]
ancestors-IsWithin (suc fuel) (c ∷ from) w m = elim (mem-cons_cases m) [
  | inl e ↦ inl (sym e)
  | inr t ↦ elim (Option-cases (last_index_byte (c ∷ from) slash)) [
    | inl e ↦ elim (rw e at t) [ ]
    | inr (i, e) ↦ elim (Bool-cases (i == 0)) [
      | inl z ↦ elim (rw (e, z) at t) [ ]
      | inr z ↦
          IsWithin-trans (c ∷ from) (take i (c ∷ from)) w
            (inr (drop (suc i) (c ∷ from), last_index_byte-cut (c ∷ from) slash i e))
            (ancestors-IsWithin fuel (take i (c ∷ from)) w (rw (e, z) at t))
    ]
  ]
]

append_at_cases :
    (j x k p : Text) (m : Partners)
    → Memᴰ p (value_at k (append_at j x m))
    → Memᴰ p (value_at k m) ⊎ ((j ≡ k) × (p ≡ x))
append_at_cases j x k p m h = elim (Bool-cases (list_eq j k)) [
  | inr e ↦ inl (rw (value_at-append_at k j x m, e) at h)
  | inl e ↦
      elim (mem-append_cases (value_at k m) (x ∷ []) (rw (value_at-append_at k j x m, e) at h)) [
        | inl old ↦ inl old
        | inr new ↦ elim (mem-cons_cases new) [
          | inl same ↦ inr ((list_eq_iff j k).0 e, same)
          | inr t ↦ elim t [ ]
        ]
      ]
]

-- the partners that the pairs bring are those of the pairs
partners_from-AreOf :
    (m : Partners) (pairs : List TreeDupPair) (k p : Text)
    → Memᴰ p (value_at k (partners_from m pairs))
    → Memᴰ p (value_at k m) ⊎ ((q : TreeDupPair) × Memᴰ q pairs × AreOf q k p)
unfolding add_partners
partners_from-AreOf m [] k p h = inl h
partners_from-AreOf m (q ∷ pairs) k p h =
    elim (partners_from-AreOf (add_partners q m) pairs k p h) [
      | inr (r, n, are) ↦ inr (r, Memᴰ.tail n, are)
      | inl n ↦ elim (append_at_cases q.dir_b q.dir_a k p (append_at q.dir_a q.dir_b m) n) [
        | inr (j, e) ↦ inr (q, Memᴰ.head refl, inr (sym j, e))
        | inl o ↦ elim (append_at_cases q.dir_a q.dir_b k p m o) [
          | inr (j, e) ↦ inr (q, Memᴰ.head refl, inl (sym j, e))
          | inl old ↦ inl old
        ]
      ]
    ]

reaches-AreOf :
    (pairs : List TreeDupPair) (a b : Text)
    → reaches (partners_from [] pairs) a b ≡ true
    → (q : TreeDupPair) × (x : Text) × (y : Text) × Memᴰ q pairs
      × AreOf q x y
      × IsWithin a x
      × IsWithin b y
unfolding reaches value_at
reaches-AreOf pairs a b h =
    let m = partners_from [] pairs in
    let below : Text → Bool = λ p. list_eq p b || is_subdir p b in
    let (w, k, e) = any-true (λ w. any below (value_at w m)) (ancestors (length a) a) h in
    let (p, l, d) = any-true below (value_at w m) e in
    elim (partners_from-AreOf [] pairs w p l) [
      | inl none_yet ↦ elim none_yet [ ]
      | inr (q, n, are) ↦ (
        q,
        w,
        p,
        n,
        are,
        ancestors-IsWithin (length a) a w k,
        elim (Bool-cases (list_eq p b)) [
          | inl same ↦ inl (sym ((list_eq_iff p b).0 same))
          | inr other ↦ inr (is_subdir-inv p b (ground (arith, d, other)))
        ],
      )
    ]

-- What treeDominated finds among the partners that pairs bring is domination by one of the pairs.
pub tree_dominated-IsDominated :
    (pairs : List TreeDupPair) (p : TreeDupPair)
    → tree_dominated (partners_from [] pairs) p.dir_a p.dir_b ≡ true
    → IsDominated pairs p
unfolding tree_dominated
tree_dominated-IsDominated pairs p h =
    elim (Bool-cases (reaches (partners_from [] pairs) p.dir_a p.dir_b)) [
      | inl e ↦ reaches-AreOf pairs p.dir_a p.dir_b e
      | inr e ↦
          let (q, x, y, n, are, in_x, in_y) =
            reaches-AreOf pairs p.dir_b p.dir_a (ground (arith, h, e)) in
          (q, y, x, n, elim are [ inl (a, b) ↦ inr (b, a) | inr (a, b) ↦ inl (b, a) ], in_y, in_x)
    ]
