-- ===== src/TreeDup/Stored/Memo.antt =====
-- What dirStoreChecker (store_tree.go) remembers changes no answer.
use dup_detector.Prelude.{
  ℕ, ◌≡◌, refl, sym, ap, ◌∙◌, ◌⊎◌, inl, inr, Bool, false, not, ◌&&◌, ◌||◌, Option, some, List, [],
  ◌∷◌, arith, if◌then◌else◌, ◌==◌, list_eq, list_eq_iff, Bool-cases, Option-cases, Order,
}
use dup_detector.Prelude.Runs.{Run, done, failed, panic, ◌>>=◌}
use dup_detector.Text.{Text}
use dup_detector.Files.{ScannedFile, TreeDupPair}
use dup_detector.Store.{Database, count_under_dir}
use dup_detector.TreeDup.Stored.{
  DirStoreChecker, new_dir_store_checker, memo_at, count_fresh, count_stored, differs,
  incomplete_dir, compare_stored, compare_second, compare_first, verify_tree_pair_mtime_store,
  kept_before, verify_pairs_mtime_store,
}

module _ (database : Database) (order : Order) (rows : List ScannedFile)
    (walk_count : Text → Option ℕ) where
  -- the answer of incompleteDir, with nothing remembered
  abbrev pub fresh_incomplete : Text → Bool
  fresh_incomplete dir =
      differs database order rows walk_count (count_under_dir database order rows dir)
        (walk_count dir)

  -- Each entry of the maps is the answer that a new count or walk gives.
  pub record IsTrue (c : DirStoreChecker) : Type 0 where
    pub counts :
        (dir : Text) (n : ℕ)
        → memo_at dir c.stored ≡ some n
        → count_under_dir database order rows dir ≡ done n
    pub flags :
        (dir : Text) (v : Bool) → memo_at dir c.incomplete ≡ some v → v ≡ fresh_incomplete dir

  memo_at-cons :
      {V : Type 0} (dir k : Text) (v w : V) (memo : List (Text × V))
      → memo_at k ((dir, v) ∷ memo) ≡ some w
      → ((k ≡ dir) × (w ≡ v)) ⊎ (memo_at k memo ≡ some w)
  unfolding memo_at
  memo_at-cons dir k v w memo h = elim (Bool-cases (list_eq dir k)) [
    | inl e ↦ inl (sym ((list_eq_iff dir k).0 e), ground (arith, h, e))
    | inr e ↦ inr (ground (arith, h, e))
  ]

  pub new-IsTrue : IsTrue new_dir_store_checker
  unfolding new_dir_store_checker memo_at
  new-IsTrue = record {
    counts = λ dir n h. absurd (ground arith);
    flags = λ dir v h. absurd (ground arith);
  }

  count_fresh-IsTrue :
      (dir : Text) (r : Run ℕ) (c : DirStoreChecker)
      → IsTrue c
      → count_under_dir database order rows dir ≡ r
      → ((count_fresh database order rows walk_count dir r c).0 ≡ r)
        × IsTrue (count_fresh database order rows walk_count dir r c).1
  unfolding count_fresh
  count_fresh-IsTrue dir (done n) c t e = (
    refl,
    record {
      counts = λ k m h. elim (memo_at-cons dir k n m c.stored h) [
        | inl (same, value) ↦ rw (same, value) e
        | inr before ↦ t.counts k m before
      ];
      flags = t.flags;
    },
  )
  count_fresh-IsTrue dir failed c t e = (refl, t)
  count_fresh-IsTrue dir panic c t e = (refl, t)

  count_stored-IsTrue :
      (dir : Text) (c : DirStoreChecker)
      → IsTrue c
      → ((count_stored database order rows walk_count dir c).0
          ≡ count_under_dir database order rows dir)
        × IsTrue (count_stored database order rows walk_count dir c).1
  unfolding count_stored
  count_stored-IsTrue dir c t = elim (Option-cases (memo_at dir c.stored)) [
    | inl n ↦
        rw (count_stored, n)
          (count_fresh-IsTrue dir (count_under_dir database order rows dir) c t refl)
    | inr (n, e) ↦ rw (count_stored, e) (sym (t.counts dir n e), t)
  ]

  incomplete_dir-IsTrue :
      (dir : Text) (c : DirStoreChecker)
      → IsTrue c
      → ((incomplete_dir database order rows walk_count dir c).0 ≡ fresh_incomplete dir)
        × IsTrue (incomplete_dir database order rows walk_count dir c).1
  unfolding incomplete_dir
  incomplete_dir-IsTrue dir c t = elim (Option-cases (memo_at dir c.incomplete)) [
    | inr (v, e) ↦ rw (incomplete_dir, e) (t.flags dir v e, t)
    | inl n ↦
        let (counted, t') = count_stored-IsTrue dir c t in
        let flag = ap (λ r. differs database order rows walk_count r (walk_count dir)) counted in
        rw (incomplete_dir, n)
          (
            flag,
            record {
              counts = t'.counts;
              flags = λ k v h. elim (memo_at-cons dir k _ v _ h) [
                | inl (same, value) ↦ rw (same, value) flag
                | inr before ↦ t'.flags k v before
              ];
            },
          )
  ]

  -- verifyTreePairMtimeStore with nothing remembered
  abbrev pub verify_fresh : Bool → Text → Text → Run Bool
  verify_fresh filtered dir_a dir_b =
      if filtered && (fresh_incomplete dir_a || fresh_incomplete dir_b)
      then done false
      else (count_under_dir database order rows dir_a >>= λ na.
          if na == 0
          then done false
          else (count_under_dir database order rows dir_b >>= λ nb.
              if not (na == nb)
              then done false
              else compare_stored database order rows walk_count dir_a dir_b))

  compare_second-fresh :
      (dir_a dir_b : Text) (na : ℕ) (r : Run ℕ) (c : DirStoreChecker)
      → ((compare_second database order rows walk_count dir_a dir_b na (r, c)).0 ≡ (
          r >>= λ nb.
          if not (na == nb)
          then done false
          else compare_stored database order rows walk_count dir_a dir_b))
        × ((compare_second database order rows walk_count dir_a dir_b na (r, c)).1 ≡ c)
  unfolding compare_second
  compare_second-fresh dir_a dir_b na (done nb) c = (refl, refl)
  compare_second-fresh dir_a dir_b na failed c = (refl, refl)
  compare_second-fresh dir_a dir_b na panic c = (refl, refl)

  compare_first-fresh :
      (dir_a dir_b : Text) (r : Run ℕ) (c : DirStoreChecker)
      → IsTrue c
      → ((compare_first database order rows walk_count dir_a dir_b (r, c)).0 ≡ (
          r >>= λ na.
          if na == 0
          then done false
          else (count_under_dir database order rows dir_b >>= λ nb.
              if not (na == nb)
              then done false
              else compare_stored database order rows walk_count dir_a dir_b)))
        × IsTrue (compare_first database order rows walk_count dir_a dir_b (r, c)).1
  unfolding compare_first
  compare_first-fresh dir_a dir_b (done na) c t = elim (Bool-cases (na == 0)) [
    | inl e ↦ rw e (refl, t)
    | inr e ↦
        let (counted, t') = count_stored-IsTrue dir_b c t in
        let (r, c') = count_stored database order rows walk_count dir_b c in
        let (same, left) = compare_second-fresh dir_a dir_b na r c' in
        rw e (
          same
              ∙ ap
                  (λ (x : Run ℕ). x >>= λ nb.
                    if not (na == nb)
                    then done false
                    else compare_stored database order rows walk_count dir_a dir_b)
                  counted,
          rw left t',
        )
  ]
  compare_first-fresh dir_a dir_b failed c t = (refl, t)
  compare_first-fresh dir_a dir_b panic c t = (refl, t)

  counts_only :
      (dir_a dir_b : Text) (c : DirStoreChecker)
      → IsTrue c
      → ((compare_first database order rows walk_count dir_a dir_b
            (count_stored database order rows walk_count dir_a c)).0
          ≡ verify_fresh false dir_a dir_b)
        × IsTrue
            (compare_first database order rows walk_count dir_a dir_b
              (count_stored database order rows walk_count dir_a c)).1
  counts_only dir_a dir_b c t =
      let (counted, t') = count_stored-IsTrue dir_a c t in
      let (r, c') = count_stored database order rows walk_count dir_a c in
      rw (← counted) (compare_first-fresh dir_a dir_b r c' t')

  pub verify_tree_pair_mtime_store-fresh :
      (filtered : Bool) (dir_a dir_b : Text) (c : DirStoreChecker)
      → IsTrue c
      → ((verify_tree_pair_mtime_store database order rows walk_count filtered dir_a dir_b c).0
          ≡ verify_fresh filtered dir_a dir_b)
        × IsTrue
            (verify_tree_pair_mtime_store database order rows walk_count filtered dir_a dir_b c).1
  unfolding verify_tree_pair_mtime_store
  verify_tree_pair_mtime_store-fresh filtered dir_a dir_b c t =
      let (flag_a, ta) = incomplete_dir-IsTrue dir_a c t in
      let c_a = (incomplete_dir database order rows walk_count dir_a c).1 in
      let (flag_b, tb) = incomplete_dir-IsTrue dir_b c_a ta in
      let c_b = (incomplete_dir database order rows walk_count dir_b c_a).1 in
      elim (Bool-cases filtered) [
        | inr e ↦ rw e (counts_only dir_a dir_b c t)
        | inl e ↦ elim (Bool-cases (fresh_incomplete dir_a)) [
          | inl a ↦ rw (e, flag_a, a) (refl, ta)
          | inr a ↦ elim (Bool-cases (fresh_incomplete dir_b)) [
            | inl b ↦ rw (e, flag_a, a, flag_b, b) (refl, tb)
            | inr b ↦ rw (e, flag_a, a, flag_b, b) (counts_only dir_a dir_b c_b tb)
          ]
        ]
      ]

  -- verifyPairsMtimeStore with nothing remembered
  unfoldable pub verify_pairs_fresh : Bool → List TreeDupPair → Run (List TreeDupPair)
  verify_pairs_fresh filtered [] = done []
  verify_pairs_fresh filtered (p ∷ pairs) =
      kept_before p (verify_fresh filtered p.dir_a p.dir_b) (verify_pairs_fresh filtered pairs)

  -- From a checker whose entries are true, the check of a list of tree pairs keeps the same pairs, or
  -- fails in the same way, as a check that counts and walks both directories of each pair anew.
  pub verify_pairs_mtime_store-fresh :
      (filtered : Bool) (pairs : List TreeDupPair) (c : DirStoreChecker)
      → IsTrue c
      → verify_pairs_mtime_store database order rows walk_count filtered pairs c
        ≡ verify_pairs_fresh filtered pairs
  unfolding verify_pairs_mtime_store verify_pairs_fresh
  verify_pairs_mtime_store-fresh filtered [] c t = refl
  verify_pairs_mtime_store-fresh filtered (p ∷ pairs) c t =
      let (same, t') = verify_tree_pair_mtime_store-fresh filtered p.dir_a p.dir_b c t in
      let rest = verify_pairs_mtime_store-fresh filtered pairs _ t' in rw (same, rest) refl
