-- ===== src/TreeDup/Incremental/Checked/Agrees.antt =====
-- AddGroups over the file store finds what AddGroups over the lookup finds.
use dup_detector.Prelude.{
  true, some_inj, ◌≡◌, refl, sym, ap, ◌∙◌, inl, inr, ℕ, Bool, some, List, [], ◌∷◌, arith, ◌==◌,
  length, length-perm, sort-perm, Permᴰ, Bool-cases, Option-cases, Order, false, list_eq,
  list_eq_iff, ==_iff,
}
use dup_detector.Text.{Text}
use dup_detector.Files.{ScannedFile, DupGroup}
use dup_detector.Store.{Database, sorted_under, stored_under, count_under_dir, rows_under, by_path}
use dup_detector.Store.Coverage.{coverage_and_size-list}
use dup_detector.TreeDup.Stored.{memo_at}
use dup_detector.TreeDup.Incremental.{
  DirKey, Index, TreeDupState, verify_pair, verify_pairs, with_found, add_groups, found_pairs,
  index_groups, unchecked,
}
use dup_detector.TreeDup.Incremental.Checked.{
  Counts, memoize_dir_counter, lookup_stored, count_stored_under, covered_pair, verify_pair_checked,
  verify_pairs_checked, add_groups_checked,
}

-- Of each directory, the count, the list and the stream succeed together, or none of them does.
abbrev pub FailTogether : Database → Type 0
FailTogether database =
    (dir : Text)
    → (database.counts dir ≡ database.lists dir) × (database.streams dir ≡ database.lists dir)

module _ (database : Database) (order : Order) (rows : List ScannedFile) where
  -- What the map remembers are the counts of the store.
  abbrev pub IsCounted : Counts → Type 0
  IsCounted counts =
      (dir : Text) (n : ℕ)
      → memo_at dir counts ≡ some n
      → n ≡ count_stored_under database order rows dir

module _ (database : Database) (order : Order) (rows : List ScannedFile)
    (together : FailTogether database) where
  count-lookup :
      (dir : Text)
      → count_stored_under database order rows dir ≡ length (lookup_stored database order rows dir)
  unfolding count_stored_under lookup_stored count_under_dir stored_under sorted_under
  count-lookup dir =
      let sorted =
        Permᴰ.trans (sort-perm by_path (order.visit _ (rows_under rows dir)))
          (order.visit-perm _ (rows_under rows dir)) in
      let counted = (together dir).0 in
      elim (Bool-cases (database.lists dir)) [
        | inl e ↦
            rw (count_stored_under, lookup_stored, count_under_dir, stored_under, counted, e)
              (sym (length-perm sorted))
        | inr e ↦
            rw (count_stored_under, lookup_stored, count_under_dir, stored_under, counted, e) refl
      ]

  memoized :
      (dir : Text) (counts : Counts)
      → IsCounted database order rows counts
      → ((memoize_dir_counter (count_stored_under database order rows) dir counts).0
          ≡ count_stored_under database order rows dir)
        × IsCounted database order rows
            (memoize_dir_counter (count_stored_under database order rows) dir counts).1
  unfolding memoize_dir_counter memo_at
  memoized dir counts h = elim (Option-cases (memo_at dir counts)) [
    | inr (n, e) ↦ rw (memoize_dir_counter, e) (h dir n e, h)
    | inl e ↦
        rw (memoize_dir_counter, e)
          (
            refl,
            λ d n m. elim (Bool-cases (list_eq dir d)) [
              | inl q ↦
                  let same : dir ≡ d = (list_eq_iff dir d).0 q in
                  let counted : count_stored_under database order rows dir ≡ n =
                    some_inj (rw q at m) in
                  sym counted ∙ ap (count_stored_under database order rows) same
              | inr q ↦ h d n (rw q at m)
            ],
          )
  ]

  answered :
      (dir : Text)
      → (length (lookup_stored database order rows dir) == 0) ≡ false
      → (database.streams dir ≡ true)
        × (sorted_under database order rows dir ≡ lookup_stored database order rows dir)
  unfolding lookup_stored stored_under
  answered dir h = elim (Bool-cases (database.lists dir)) [
    | inl e ↦ ((together dir).1 ∙ e, rw (lookup_stored, stored_under, e) refl)
    | inr e ↦ absurd (let h' = rw (lookup_stored, stored_under, e) at h in ground (arith, h'))
  ]

  covered_pair-lookup :
      (index : Index) (verified : Bool) (a b : Text) (n : ℕ)
      → count_stored_under database order rows a ≡ n
      → count_stored_under database order rows b ≡ n
      → (n == 0) ≡ false
      → covered_pair database order rows index verified (a, b) n
        ≡ verify_pair (lookup_stored database order rows) index verified (a, b)
  unfolding covered_pair verify_pair
  covered_pair-lookup index verified a b n ha hb hn =
      let files_a = lookup_stored database order rows a in
      let files_b = lookup_stored database order rows b in
      let la = count-lookup a in
      let lb = count-lookup b in
      let (total, e, sums) =
        coverage_and_size-list database order rows a b index files_a (answered a (ground arith)).0
          (answered a (ground arith)).1 in
      let (total', e', sums') =
        coverage_and_size-list database order rows b a index files_b (answered b (ground arith)).0
          (answered b (ground arith)).1 in
      let na : n ≡ length files_a = sym ha ∙ la in
      let nb : n ≡ length files_b = sym hb ∙ lb in
      rw (covered_pair, e, e') (ground (arith, sums, na, nb, hn))

  verify_pair_checked-verify_pair :
      (index : Index) (verified : Bool) (k : DirKey) (counts : Counts)
      → IsCounted database order rows counts
      → ((verify_pair_checked database order rows index verified k counts).0
          ≡ verify_pair (lookup_stored database order rows) index verified k)
        × IsCounted database order rows
            (verify_pair_checked database order rows index verified k counts).1
  unfolding verify_pair_checked verify_pair
  verify_pair_checked-verify_pair index verified (a, b) counts h =
      let count = count_stored_under database order rows in
      let (ea, h') = memoized a counts h in
      let (eb, h'') = memoized b (memoize_dir_counter count a counts).1 h' in
      let la = count-lookup a in
      let lb = count-lookup b in
      elim (Bool-cases (count a == 0)) [
        | inl z ↦ rw (verify_pair_checked, ea, z) (ground (arith, la, z), h')
        | inr z ↦ elim (Bool-cases (count a == count b)) [
          | inr d ↦ rw (verify_pair_checked, ea, eb, z, d) (ground (arith, la, lb, z, d), h'')
          | inl d ↦
              rw (verify_pair_checked, ea, eb, z, d)
                (
                  covered_pair-lookup index verified a b (count a) refl
                      (sym ((==_iff (count a) (count b)).0 d)) z,
                  h'',
                )
        ]
      ]

  verify_pairs_checked-verify_pairs :
      (index : Index) (verified : Bool) (keys : List DirKey) (counts : Counts)
      → IsCounted database order rows counts
      → ((verify_pairs_checked database order rows index verified keys counts).0
          ≡ verify_pairs (lookup_stored database order rows) index verified keys)
        × IsCounted database order rows
            (verify_pairs_checked database order rows index verified keys counts).1
  unfolding verify_pairs_checked verify_pairs
  verify_pairs_checked-verify_pairs index verified [] counts h = (refl, h)
  verify_pairs_checked-verify_pairs index verified (k ∷ keys) counts h =
      let (e, h') = verify_pair_checked-verify_pair index verified k counts h in
      let (es, h'') =
        verify_pairs_checked-verify_pairs index verified keys
          (verify_pair_checked database order rows index verified k counts).1 h' in
      (
        ap
              (λ o.
                with_found o
                  (verify_pairs_checked database order rows index verified keys
                    (verify_pair_checked database order rows index verified k counts).1).0)
              e
            ∙ ap (with_found (verify_pair (lookup_stored database order rows) index verified k)) es,
        h'',
      )

  -- With the counts and the streamed checks of the file store, if for each directory its count, its list
  -- and its stream succeed or fail together, a batch of groups finds the pairs and leaves the state
  -- that it does with the lists of files from the lookup; and the remembered counts, if they are the
  -- store's, stay so.
  pub add_groups_checked-add_groups :
      (groups : List DupGroup) (verified : Bool) (s : TreeDupState) (counts : Counts)
      → IsCounted database order rows counts
      → ((add_groups_checked database order rows groups verified (s, counts)).0
          ≡ (add_groups order groups (lookup_stored database order rows) verified s).0)
        × ((add_groups_checked database order rows groups verified (s, counts)).1.0
            ≡ (add_groups order groups (lookup_stored database order rows) verified s).1)
        × IsCounted database order rows
            (add_groups_checked database order rows groups verified (s, counts)).1.1
  unfolding add_groups_checked add_groups found_pairs
  add_groups_checked-add_groups [] verified s counts h = (refl, refl, h)
  add_groups_checked-add_groups (g ∷ groups) verified s counts h =
      let index = index_groups (g ∷ groups) s.dup_index in
      let keys = unchecked order (g ∷ groups) s in
      let (e, h') = verify_pairs_checked-verify_pairs index verified keys counts h in
      (rw e refl, rw e refl, h')
