-- ===== src/TreeDup/Stored/Sound.antt =====
-- A tree pair that FindTreeDupsByHashStore (store_tree.go) reports has the same files on both sides.
use dup_detector.Prelude.{
  ℕ, ◌+◌, ◌≡◌, refl, sym, ap, ◌∙◌, ◌⊎◌, inl, inr, Bool, true, false, not, ◌&&◌, ◌||◌, Option, none,
  some, List, [], ◌∷◌, Memᴰ, arith, if◌then◌else◌, ◌==◌, length, Bool-cases, mem_of_perm,
  mem-cons_cases, sort, mem-sort, larger_first, Order,
}
use dup_detector.Prelude.Runs.{Run, done, failed, panic, ◌>>=◌, >>=-eq-done}
use dup_detector.Text.{Text}
use dup_detector.Files.{ScannedFile, ScanConfig, TreeDupPair, signed_rank}
use dup_detector.Store.{Database, stored_under, count_under_dir, by_path}
use dup_detector.TreeDup.{remove_sub_pairs_fast, relative_files, all_match}
use dup_detector.TreeDup.SubPairs.{remove_sub_pairs_fast-covers}
use dup_detector.TreeDup.ByHash.{candidate_pairs}
use dup_detector.TreeDup.Verified.{SameListed, all_match-SameListed}
use dup_detector.TreeDup.Stored.{
  new_dir_store_checker, is_filtered, of_option, differs, compare_files, compare_stored,
  find_tree_dups_by_hash_store, verify_pairs_mtime_store,
}
use dup_detector.TreeDup.Stored.Memo.{
  fresh_incomplete, new-IsTrue, verify_fresh, verify_pairs_fresh, verify_pairs_mtime_store-fresh,
}

of_option-eq-done : {A : Type 0} (m : Option A) {a : A} → of_option m ≡ done a → m ≡ some a
of_option-eq-done none h = absurd (ground arith)
of_option-eq-done (some b) h = ground arith

both_false : (f a b : Bool) → (f && (a || b)) ≡ false → f ≡ true → (a ≡ false) × (b ≡ false)
both_false f false false h e = (refl, refl)
both_false f true b h e = absurd (ground arith)
both_false f false true h e = absurd (ground arith)

unless_failed :
    {A : Type 0} (b : Bool) (r : Run A) {a : A} → (if b then failed else r) ≡ done a → r ≡ done a
unless_failed true r h = absurd (ground arith)
unless_failed false r h = h

unless-done :
    (b : Bool) (r : Run Bool)
    → (if b then done false else r) ≡ done true
    → (b ≡ false) × (r ≡ done true)
unless-done true r h = absurd (ground arith)
unless-done false r h = (refl, h)

compare_files-SameListed :
    (dir_a dir_b : Text) (files_a files_b : List ScannedFile)
    → compare_files dir_a dir_b files_a files_b ≡ done true
    → SameListed (length dir_a + 1) (length dir_b + 1) files_a files_b
unfolding compare_files
compare_files-SameListed dir_a dir_b files_a files_b h =
    let (e, h1) = unless-done (length files_a == 0 || not (length files_a == length files_b)) _ h in
    let (m, em, h2) =
      >>=-eq-done (of_option (relative_files (length dir_b + 1) files_b []))
        (λ m. of_option (all_match (length dir_a + 1) m files_a)) h1 in
    all_match-SameListed (length dir_a + 1) (length dir_b + 1) files_a files_b m e
      (of_option-eq-done _ em) (of_option-eq-done _ h2)

module _ (database : Database) (order : Order) (rows : List ScannedFile)
    (walk_count : Text → Option ℕ) where
  -- The queries for both directories give files, and the same ones.
  abbrev pub SameStored : Text → Text → Type 0
  SameStored dir_a dir_b =
      (files_a files_b : List ScannedFile) × (stored_under database order rows dir_a ≡ done files_a)
      × (stored_under database order rows dir_b ≡ done files_b)
      × SameListed (length dir_a + 1) (length dir_b + 1) files_a files_b

  -- The walk of the disk finds as many files below the directory as the store has.
  abbrev pub IsComplete : Text → Type 0
  IsComplete dir =
      (n : ℕ) × (count_under_dir database order rows dir ≡ done n) × (walk_count dir ≡ some n)

  compare_stored-SameStored :
      (dir_a dir_b : Text)
      → compare_stored database order rows walk_count dir_a dir_b ≡ done true
      → SameStored dir_a dir_b
  unfolding compare_stored
  compare_stored-SameStored dir_a dir_b h =
      let (files_a, ea, h1) =
        >>=-eq-done (stored_under database order rows dir_a)
          (λ files_a. stored_under database order rows dir_b >>= compare_files dir_a dir_b files_a)
          h in
      let (files_b, eb, h2) =
        >>=-eq-done (stored_under database order rows dir_b) (compare_files dir_a dir_b files_a)
          h1 in
      (files_a, files_b, ea, eb, compare_files-SameListed dir_a dir_b files_a files_b h2)

  differs-IsComplete :
      (dir : Text) (r : Run ℕ) (w : Option ℕ)
      → differs database order rows walk_count r w ≡ false
      → (n : ℕ) × (r ≡ done n) × (w ≡ some n)
  unfolding differs
  differs-IsComplete dir (done n) (some k) h = (n, refl, ground arith)
  differs-IsComplete dir (done n) none h = absurd (ground arith)
  differs-IsComplete dir failed w h = absurd (ground arith)
  differs-IsComplete dir panic w h = absurd (ground arith)

  verify_fresh-SameStored :
      (filtered : Bool) (dir_a dir_b : Text)
      → verify_fresh database order rows walk_count filtered dir_a dir_b ≡ done true
      → (filtered ≡ true → IsComplete dir_a × IsComplete dir_b) × SameStored dir_a dir_b
  verify_fresh-SameStored filtered dir_a dir_b h =
      let (e, h1) =
        unless-done
          (filtered
            && (fresh_incomplete database order rows walk_count dir_a
                || fresh_incomplete database order rows walk_count dir_b))
          _ h in
      let (na, ea, h2) = >>=-eq-done (count_under_dir database order rows dir_a) _ h1 in
      let (some_a, h3) = unless-done (na == 0) _ h2 in
      let (nb, eb, h4) = >>=-eq-done (count_under_dir database order rows dir_b) _ h3 in
      let (same, h5) = unless-done (not (na == nb)) _ h4 in
      (
        λ f.
            let (a, b) = both_false filtered _ _ e f in
            (differs-IsComplete dir_a _ _ a, differs-IsComplete dir_b _ _ b),
        compare_stored-SameStored dir_a dir_b h5,
      )

  verify_pairs_fresh-each :
      (filtered : Bool) (pairs out : List TreeDupPair) {p : TreeDupPair}
      → verify_pairs_fresh database order rows walk_count filtered pairs ≡ done out
      → Memᴰ p out
      → Memᴰ p pairs
        × (verify_fresh database order rows walk_count filtered p.dir_a p.dir_b ≡ done true)
  unfolding verify_pairs_fresh
  verify_pairs_fresh-each filtered [] out h m =
      let e : [] ≡ out = ground arith in elim (rw (← e) at m) [ ]
  verify_pairs_fresh-each filtered (q ∷ pairs) out {p = p} h m =
      let (ok, eq, h1) = >>=-eq-done _ _ h in
      let (rest, er, h2) = >>=-eq-done _ _ h1 in
      elim (Bool-cases ok) [
        | inl c ↦
            let e : q ∷ rest ≡ out = let z = rw c at h2 in ground arith in
            elim (mem-cons_cases (rw (← e) at m)) [
              | inl s ↦ (Memᴰ.head s, rw s (eq ∙ ap done c))
              | inr t ↦
                  let (n, v) = verify_pairs_fresh-each filtered pairs rest er t in (Memᴰ.tail n, v)
            ]
        | inr c ↦
            let e : rest ≡ out = let z = rw c at h2 in ground arith in
            let (n, v) = verify_pairs_fresh-each filtered pairs rest er (rw (← e) at m) in
            (Memᴰ.tail n, v)
      ]

  -- When the pass by hash over the store reports a tree pair, the pair comes from a bucket of equal
  -- hashes, and the store has the same files below its two directories: relative paths, sizes and
  -- mtimes. Also, either no option leaves files out of the scan, or the walk of the disk finds in both
  -- directories as many files as the store has.
  pub find_tree_dups_by_hash_store-SameStored :
      (cfg : ScanConfig) (pairs : List TreeDupPair) (p : TreeDupPair)
      → find_tree_dups_by_hash_store database order rows walk_count cfg ≡ done pairs
      → Memᴰ p pairs
      → Memᴰ p (candidate_pairs order (sort by_path (order.visit _ rows)))
        × ((is_filtered cfg ≡ false) ⊎ (IsComplete p.dir_a × IsComplete p.dir_b))
        × SameStored p.dir_a p.dir_b
  unfolding find_tree_dups_by_hash_store
  find_tree_dups_by_hash_store-SameStored cfg pairs p h m =
      let found = candidate_pairs order (sort by_path (order.visit _ rows)) in
      let h1 = unless_failed (not database.totals) _ h in
      let h2 = unless_failed (not database.walks) _ h1 in
      let (out, eo, h3) =
        >>=-eq-done
          (verify_pairs_mtime_store database order rows walk_count (is_filtered cfg)
            (remove_sub_pairs_fast order found) new_dir_store_checker)
          _ h2 in
      let e : sort (larger_first (λ p. signed_rank p.total_size)) (order.visit _ out) ≡ pairs =
        ground (arith, h3) in
      let kept = mem_of_perm (order.visit-perm _ out) (mem-sort _ _ (rw (← e) at m)) in
      let fresh =
        verify_pairs_mtime_store-fresh database order rows walk_count (is_filtered cfg)
          (remove_sub_pairs_fast order found) new_dir_store_checker
          (new-IsTrue database order rows walk_count) in
      let (n, v) = verify_pairs_fresh-each (is_filtered cfg) _ out (sym fresh ∙ eo) kept in
      (
        (remove_sub_pairs_fast-covers order found p).0 n,
        elim (Bool-cases (is_filtered cfg)) [
          | inl e ↦ inr ((verify_fresh-SameStored (is_filtered cfg) p.dir_a p.dir_b v).0 e)
          | inr e ↦ inl e
        ],
        (verify_fresh-SameStored (is_filtered cfg) p.dir_a p.dir_b v).1,
      )
