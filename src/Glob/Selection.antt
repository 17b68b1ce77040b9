-- ===== src/Glob/Selection.antt =====
-- `selectByGlob` picks matching copies and leaves one.
use dup_detector.Prelude.{
  ℕ, zero, suc, ◌+◌, ◌≤◌, ◌<◌, ◌≡◌, refl, Bool, true, false, some, List, [], ◌∷◌, arith, Bool-cases,
  Memᴰ, inl, inr, length, get_elem?, has, nat_eq, has-mem, mem-cons_cases,
}
use dup_detector.Text.{Text}
use dup_detector.Glob.{match_glob, glob_partition, choose_indices, select_by_glob}

module _ (matches : Text → Bool) where
  matched_bounds :
      (i : ℕ) (ps : List Text) (j : ℕ)
      → Memᴰ j (glob_partition matches i ps).0
      → (i ≤ j) × (j < i + length ps)
  unfolding glob_partition
  matched_bounds i [] j m = elim m [ ]
  matched_bounds i (p ∷ ps) j m = elim (Bool-cases (matches p)) [
    | inl e ↦ elim (mem-cons_cases (rw e at m)) [
      | inl h ↦ omega arith
      | inr t ↦ omega (arith, matched_bounds (suc i) ps j t)
    ]
    | inr e ↦ omega (arith, matched_bounds (suc i) ps j (rw e at m))
  ]

  unmatched_bounds :
      (i : ℕ) (ps : List Text) (j : ℕ)
      → Memᴰ j (glob_partition matches i ps).1
      → (i ≤ j) × (j < i + length ps)
  unfolding glob_partition
  unmatched_bounds i [] j m = elim m [ ]
  unmatched_bounds i (p ∷ ps) j m = elim (Bool-cases (matches p)) [
    | inr e ↦ elim (mem-cons_cases (rw e at m)) [
      | inl h ↦ omega arith
      | inr t ↦ omega (arith, unmatched_bounds (suc i) ps j t)
    ]
    | inl e ↦ omega (arith, unmatched_bounds (suc i) ps j (rw e at m))
  ]

  not_both :
      (i : ℕ) (ps : List Text) (j : ℕ)
      → Memᴰ j (glob_partition matches i ps).0
      → Memᴰ j (glob_partition matches i ps).1
      → ⊥
  unfolding glob_partition
  not_both i [] j m u = elim m [ ]
  not_both i (p ∷ ps) j m u = elim (Bool-cases (matches p)) [
    | inl e ↦ elim (mem-cons_cases (rw e at m)) [
      | inl h ↦ omega (arith, unmatched_bounds (suc i) ps j (rw e at u))
      | inr t ↦ not_both (suc i) ps j t (rw e at u)
    ]
    | inr e ↦ elim (mem-cons_cases (rw e at u)) [
      | inl h ↦ omega (arith, matched_bounds (suc i) ps j (rw e at m))
      | inr t ↦ not_both (suc i) ps j (rw e at m) t
    ]
  ]

  matched_matches :
      (i k j : ℕ) (ps : List Text)
      → j ≡ i + k
      → Memᴰ j (glob_partition matches i ps).0
      → (p : Text) × (get_elem? ps k ≡ some p) × (matches p ≡ true)
  unfolding glob_partition
  matched_matches i k j [] q m = elim m [ ]
  matched_matches i zero j (p ∷ ps) q m = elim (Bool-cases (matches p)) [
    | inl e ↦ (p, refl, e)
    | inr e ↦ absurd (omega (arith, matched_bounds (suc i) ps j (rw e at m)))
  ]
  matched_matches i (suc k) j (p ∷ ps) q m = elim (Bool-cases (matches p)) [
    | inl e ↦ elim (mem-cons_cases (rw e at m)) [
      | inl h ↦ absurd (omega arith)
      | inr t ↦ matched_matches (suc i) k j ps (omega arith) t
    ]
    | inr e ↦ matched_matches (suc i) k j ps (omega arith) (rw e at m)
  ]

  matched_complete :
      (i k j : ℕ) (ps : List Text) {p : Text}
      → j ≡ i + k
      → get_elem? ps k ≡ some p
      → matches p ≡ true
      → Memᴰ j (glob_partition matches i ps).0
  unfolding glob_partition
  matched_complete i k j [] q h e = absurd (ground arith)
  matched_complete i zero j (p ∷ ps) q h e =
      let px : matches p ≡ true = ground arith in rw px (Memᴰ.head (omega arith))
  matched_complete i (suc k) j (p ∷ ps) q h e =
      let ih = matched_complete (suc i) k j ps (omega arith) h e in
      elim (Bool-cases (matches p)) [ inl px ↦ rw px (Memᴰ.tail ih) | inr px ↦ rw px ih ]

  unmatched_complete :
      (i k j : ℕ) (ps : List Text) {p : Text}
      → j ≡ i + k
      → get_elem? ps k ≡ some p
      → matches p ≡ false
      → Memᴰ j (glob_partition matches i ps).1
  unfolding glob_partition
  unmatched_complete i k j [] q h e = absurd (ground arith)
  unmatched_complete i zero j (p ∷ ps) q h e =
      let px : matches p ≡ false = ground arith in rw px (Memᴰ.head (omega arith))
  unmatched_complete i (suc k) j (p ∷ ps) q h e =
      let ih = unmatched_complete (suc i) k j ps (omega arith) h e in
      elim (Bool-cases (matches p)) [ inl px ↦ rw px ih | inr px ↦ rw px (Memᴰ.tail ih) ]

  -- The first matched index is below all others.
  matched_head :
      (i : ℕ) (ps : List Text) (a : ℕ) (rest : List ℕ)
      → (glob_partition matches i ps).0 ≡ a ∷ rest
      → (j : ℕ) → Memᴰ j rest
      → a < j
  unfolding glob_partition
  matched_head i [] a rest e j m = absurd (ground arith)
  matched_head i (p ∷ ps) a rest e j m = elim (Bool-cases (matches p)) [
    | inl px ↦
        let first : a ≡ i = ground arith in
        let same : rest ≡ (glob_partition matches (suc i) ps).0 = ground arith in
        omega (arith, matched_bounds (suc i) ps j (rw same at m))
    | inr px ↦ matched_head (suc i) ps a rest (ground arith) j m
  ]

not-has : (i : ℕ) (xs : List ℕ) → (Memᴰ i xs → ⊥) → has i xs ≡ false
not-has i xs h = elim (Bool-cases (has i xs)) [ inl e ↦ absurd (h (has-mem i xs e)) | inr e ↦ e ]

chosen_matched : (m u : List ℕ) (j : ℕ) → Memᴰ j (choose_indices m u) → Memᴰ j m
unfolding choose_indices
chosen_matched [] u j h = h
chosen_matched (i ∷ m) (k ∷ u) j h = h
chosen_matched (i ∷ m) [] j h = Memᴰ.tail h

-- Every selected index is that of a path which the glob matches.
pub select_by_glob-matches :
    (paths : List Text) (glob : Text) (i : ℕ)
    → Memᴰ i (select_by_glob paths glob)
    → (p : Text) × (get_elem? paths i ≡ some p) × (match_glob glob p ≡ true)
unfolding select_by_glob
select_by_glob-matches paths glob i h =
    matched_matches (match_glob glob) 0 i i paths (omega arith) (chosen_matched _ _ i h)

chosen_all : (m u : List ℕ) (j k : ℕ) → Memᴰ j m → Memᴰ k u → Memᴰ j (choose_indices m u)
unfolding choose_indices
chosen_all m [] j k h n = elim n [ ]
chosen_all [] (x ∷ u) j k h n = h
chosen_all (i ∷ m) (x ∷ u) j k h n = h

-- If some path does not match, every path that does is selected.
pub select_by_glob-all :
    (paths : List Text) (glob : Text) (i k : ℕ) {p q : Text}
    → get_elem? paths i ≡ some p
    → match_glob glob p ≡ true
    → get_elem? paths k ≡ some q
    → match_glob glob q ≡ false
    → Memᴰ i (select_by_glob paths glob)
unfolding select_by_glob
select_by_glob-all paths glob i k hp mp hq mq =
    chosen_all _ _ i k (matched_complete (match_glob glob) 0 i i paths (omega arith) hp mp)
      (unmatched_complete (match_glob glob) 0 k k paths (omega arith) hq mq)

survivor_from :
    (matches : Text → Bool) (paths : List Text) (m u : List ℕ)
    → (glob_partition matches 0 paths).0 ≡ m
    → (glob_partition matches 0 paths).1 ≡ u
    → 0 < length paths
    → (i : ℕ) × (i < length paths) × (has i (choose_indices m u) ≡ false)
unfolding choose_indices
survivor_from matches paths [] u e d h = (0, h, refl)
survivor_from matches paths (a ∷ m) [] e d h = (
  a,
  omega (arith, matched_bounds matches 0 paths a (rw e (Memᴰ.head refl))),
  not-has a m (λ n. absurd (omega (arith, matched_head matches 0 paths a m e a n))),
)
survivor_from matches paths (a ∷ m) (k ∷ u) e d h =
    let in_u : Memᴰ k (glob_partition matches 0 paths).1 = rw d (Memᴰ.head refl) in
    (
      k,
      omega (arith, unmatched_bounds matches 0 paths k in_u),
      not-has k (a ∷ m) (λ n. not_both matches 0 paths k (rw e n) in_u),
    )

-- Whatever the glob, at least one copy of a group is not selected.
pub select_by_glob-survivor :
    (paths : List Text) (glob : Text)
    → 0 < length paths
    → (i : ℕ) × (i < length paths) × (has i (select_by_glob paths glob) ≡ false)
unfolding select_by_glob
select_by_glob-survivor paths glob h = survivor_from (match_glob glob) paths _ _ refl refl h
