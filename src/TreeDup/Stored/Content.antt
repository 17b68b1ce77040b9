-- ===== src/TreeDup/Stored/Content.antt =====
-- The check of tree pairs by content (VerifyTreePairsByContent, store_tree.go), over any hash that
-- tells the content of the files it is asked for.
use dup_detector.Prelude.{
  ℕ, ◌+◌, ◌≤◌, ◌≡◌, refl, sym, ap, ◌∙◌, ◌⊎◌, inl, inr, Bool, true, false, not, ◌||◌, Option, none,
  some, List, [], ◌∷◌, Memᴰ, arith, if◌then◌else◌, ◌==◌, length, drop, list_eq, list_eq_iff,
  Bool-cases, Option-cases, mem-cons_cases,
}
use dup_detector.Prelude.Runs.{done, >>=-eq-done, Run-cases}
use dup_detector.Text.{Text}
use dup_detector.Files.{ScannedFile, TreeDupPair, DirLookup}
use dup_detector.TreeDup.{slice_from}
use dup_detector.TreeDup.Verified.{slice_from-drop}
use dup_detector.TreeDup.Stored.Rows.{relative_rows-from}
use dup_detector.TreeDup.Stored.{
  memo_at, relative_rows, same_content, all_same, tree_pair_content_equal,
  verify_tree_pairs_by_content,
}

kept_before-cases :
    {A : Type 0} (b : Bool) (p : A) (rest out : List A)
    → done (if b then p ∷ rest else rest) ≡ done out
    → (rest ≡ out) ⊎ ((b ≡ true) × (p ∷ rest ≡ out))
kept_before-cases false p rest out h = inl (ground arith)
kept_before-cases true p rest out h = inr (refl, ground arith)

-- What the check asks of a hash and the state it keeps: for a file that is as it was scanned, a hash
-- that comes back is its digest, in every state that satisfies the invariant, which hashing keeps.
pub record TellsContent {S : Type 0} (hash : ScannedFile → S → Option Text × S)
    (digest : ScannedFile → Text) (AsScanned : ScannedFile → Type 0) (Valid : S → Type 0)
    : Type 0 where
  pub is_digest :
      (f : ScannedFile) (s : S) (h : Text)
      → AsScanned f
      → Valid s
      → (hash f s).0 ≡ some h
      → h ≡ digest f
  pub keeps : (f : ScannedFile) (s : S) → Valid s → Valid (hash f s).1

-- Both trees have files, as many as each other, and each file of one has a file of the other with
-- the same relative path, size and digest.
abbrev pub SameContent : (ScannedFile → Text) → DirLookup → TreeDupPair → Type 0
SameContent digest lookup p =
    (1 ≤ length (lookup p.dir_a))
    × (length (lookup p.dir_a) ≡ length (lookup p.dir_b))
    × ((f : ScannedFile)
        → Memᴰ f (lookup p.dir_a)
        → (g : ScannedFile) × Memᴰ g (lookup p.dir_b)
          × (drop (length p.dir_b + 1) g.path ≡ drop (length p.dir_a + 1) f.path)
          × (g.size ≡ f.size)
          × (digest g ≡ digest f))

module _ {S : Type 0} (hash : ScannedFile → S → Option Text × S) (digest : ScannedFile → Text)
    (AsScanned : ScannedFile → Type 0) (Valid : S → Type 0)
    (tells : TellsContent hash digest AsScanned Valid) where
  same_content-keeps :
      (fa : ScannedFile) (fb : Option ScannedFile) (s : S)
      → Valid s
      → Valid (same_content hash fa fb s).1
  unfolding same_content
  same_content-keeps fa none s v = v
  same_content-keeps fa (some fb) s v =
      let (ha, s') = hash fa s in
      let va : Valid (hash fa s).1 = tells.keeps fa s v in
      let vb : Valid (hash fb (hash fa s).1).1 = tells.keeps fb _ va in
      elim (Bool-cases (fa.size == fb.size)) [
        | inr e ↦ rw e v
        | inl e ↦ elim (Option-cases (hash fa s).0) [
          | inl a ↦ rw (e, a) va
          | inr (h, a) ↦ elim (Option-cases (hash fb (hash fa s).1).0) [
            | inl b ↦ rw (e, a, b) vb
            | inr (k, b) ↦ rw (e, a, b) vb
          ]
        ]
      ]

  same_content-true :
      (fa : ScannedFile) (fb : Option ScannedFile) (s : S)
      → Valid s
      → (same_content hash fa fb s).0 ≡ true
      → (g : ScannedFile) × (fb ≡ some g)
        × (g.size ≡ fa.size)
        × (AsScanned fa → AsScanned g → digest g ≡ digest fa)
  unfolding same_content
  same_content-true fa none s v t = absurd (ground arith)
  same_content-true fa (some fb) s v t =
      let va : Valid (hash fa s).1 = tells.keeps fa s v in
      elim (Bool-cases (fa.size == fb.size)) [
        | inr e ↦ absurd (let z = rw e at t in ground arith)
        | inl e ↦ elim (Option-cases (hash fa s).0) [
          | inl a ↦ absurd (let z = rw (e, a) at t in ground arith)
          | inr (h, a) ↦ elim (Option-cases (hash fb (hash fa s).1).0) [
            | inl b ↦ absurd (let z = rw (e, a, b) at t in ground arith)
            | inr (k, b) ↦
                let same : list_eq h k ≡ true = rw (e, a, b) at t in
                (
                  fb,
                  refl,
                  ground (arith, e),
                  λ now_a now_b.
                      sym (tells.is_digest fb _ k now_b va b)
                      ∙ sym ((list_eq_iff h k).0 same)
                      ∙ tells.is_digest fa s h now_a v a,
                )
          ]
        ]
      ]

  -- What all_same needs of each file of the first tree.
  abbrev Found : ℕ → List (Text × ScannedFile) → ScannedFile → Type 0
  Found n m f =
      (g : ScannedFile) × (memo_at (drop n f.path) m ≡ some g)
      × (g.size ≡ f.size)
      × (AsScanned f → AsScanned g → digest g ≡ digest f)

  all_same-each :
      (n : ℕ) (m : List (Text × ScannedFile)) (files : List ScannedFile) (s : S) {f : ScannedFile}
      → Valid s
      → (all_same hash n m files s).0 ≡ done true
      → Memᴰ f files
      → Found n m f
  unfolding all_same
  all_same-each n m [] s v h i = elim i [ ]
  all_same-each n m (g ∷ files) s {f = f} v h i = elim (Option-cases (slice_from n g.path)) [
    | inl a ↦ absurd (let z = rw (all_same, a) at h in ground arith)
    | inr (rel, a) ↦ elim (Bool-cases (same_content hash g (memo_at rel m) s).0) [
      | inr b ↦ absurd (let z = rw (all_same, a, b) at h in ground arith)
      | inl b ↦ elim (mem-cons_cases i) [
        | inl same ↦
            let cut = slice_from-drop n g.path rel a in
            rw (same, ← cut) (same_content-true g (memo_at rel m) s v b)
        | inr t ↦
            all_same-each n m files _ (same_content-keeps g (memo_at rel m) s v)
              (rw (all_same, a, b) at h) t
      ]
    ]
  ]

  all_same-keeps :
      (n : ℕ) (m : List (Text × ScannedFile)) (files : List ScannedFile) (s : S)
      → Valid s
      → Valid (all_same hash n m files s).1
  unfolding all_same
  all_same-keeps n m [] s v = v
  all_same-keeps n m (g ∷ files) s v = elim (Option-cases (slice_from n g.path)) [
    | inl a ↦ rw (all_same, a) v
    | inr (rel, a) ↦
        let kept = same_content-keeps g (memo_at rel m) s v in
        elim (Bool-cases (same_content hash g (memo_at rel m) s).0) [
          | inr b ↦ rw (all_same, a, b) kept
          | inl b ↦ rw (all_same, a, b) (all_same-keeps n m files _ kept)
        ]
  ]

  beside :
      (p : TreeDupPair) (f : ScannedFile) (files_b : List ScannedFile)
      (m : List (Text × ScannedFile))
      → AsScanned f
      → ((x : ScannedFile) → Memᴰ x files_b → AsScanned x)
      → relative_rows (length p.dir_b + 1) files_b [] ≡ done m
      → Found (length p.dir_a + 1) m f
      → (g : ScannedFile) × Memᴰ g files_b
        × (drop (length p.dir_b + 1) g.path ≡ drop (length p.dir_a + 1) f.path)
        × (g.size ≡ f.size)
        × (digest g ≡ digest f)
  unfolding memo_at
  beside p f files_b m now_a now_b a (g, at_path, size, same) =
      elim (relative_rows-from (length p.dir_b + 1) files_b [] m _ a at_path) [
        | inl none_yet ↦ absurd (ground arith)
        | inr (j, w) ↦ (g, j, sym w, size, same now_a (now_b g j))
      ]

  tree_pair_content_equal_sound :
      (lookup : DirLookup) (p : TreeDupPair) (s : S)
      → ((dir : Text) (f : ScannedFile) → Memᴰ f (lookup dir) → AsScanned f)
      → Valid s
      → Valid (tree_pair_content_equal hash lookup p s).1
        × ((tree_pair_content_equal hash lookup p s).0 ≡ done true → SameContent digest lookup p)
  unfolding tree_pair_content_equal
  tree_pair_content_equal_sound lookup p s now v =
      let files_a = lookup p.dir_a in
      let files_b = lookup p.dir_b in
      elim (Bool-cases (length files_a == 0 || not (length files_a == length files_b))) [
        | inl e ↦ rw e (v, λ h. absurd (ground arith))
        | inr e ↦ elim (Run-cases (relative_rows (length p.dir_b + 1) files_b [])) [
          | inr (inl a) ↦ rw (e, a) (v, λ h. absurd (ground arith))
          | inr (inr a) ↦ rw (e, a) (v, λ h. absurd (ground arith))
          | inl (m, a) ↦
              rw (e, a)
                (
                  all_same-keeps (length p.dir_a + 1) m files_a s v,
                  λ h. (
                    ground (arith, e),
                    ground (arith, e),
                    λ f i.
                        beside p f files_b m (now p.dir_a f i) (now p.dir_b) a
                          (all_same-each (length p.dir_a + 1) m files_a s v h i),
                  ),
                )
        ]
      ]

  -- Over a hash that tells the content, and where every file is still as it was scanned, the check by
  -- content keeps only pairs that it was given, marks each as verified, and keeps one only if its two
  -- trees have the same files: relative paths, sizes and digests.
  pub verify_tree_pairs_by_content-SameContent :
      (lookup : DirLookup) (pairs out : List TreeDupPair) (s : S) (q : TreeDupPair)
      → ((dir : Text) (f : ScannedFile) → Memᴰ f (lookup dir) → AsScanned f)
      → Valid s
      → verify_tree_pairs_by_content hash lookup pairs s ≡ done out
      → Memᴰ q out
      → (p : TreeDupPair) × Memᴰ p pairs
        × (q ≡ record p { verified = true })
        × SameContent digest lookup p
  unfolding verify_tree_pairs_by_content
  verify_tree_pairs_by_content-SameContent lookup [] out s q now v h i =
      let e : [] ≡ out = ground arith in elim (rw (← e) at i) [ ]
  verify_tree_pairs_by_content-SameContent lookup (p ∷ pairs) out s q now v h i =
      let (v', sound) = tree_pair_content_equal_sound lookup p s now v in
      let (ok, eo, h1) = >>=-eq-done (tree_pair_content_equal hash lookup p s).0 _ h in
      let (rest, er, h2) =
        >>=-eq-done
          (verify_tree_pairs_by_content hash lookup pairs
            (tree_pair_content_equal hash lookup p s).1)
          _ h1 in
      elim (kept_before-cases ok (record p { verified = true }) rest out h2) [
        | inl e ↦
            let (r, j, w, k) =
              verify_tree_pairs_by_content-SameContent lookup pairs rest _ q now v' er
                (rw (← e) at i) in
            (r, Memᴰ.tail j, w, k)
        | inr (t, e) ↦ elim (mem-cons_cases (rw (← e) at i)) [
          | inl same ↦ (p, Memᴰ.head refl, same, sound (eo ∙ ap done t))
          | inr m ↦
              let (r, j, w, k) =
                verify_tree_pairs_by_content-SameContent lookup pairs rest _ q now v' er m in
              (r, Memᴰ.tail j, w, k)
        ]
      ]
