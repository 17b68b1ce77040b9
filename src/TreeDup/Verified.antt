-- ===== src/TreeDup/Verified.antt =====
-- A tree pair of FindTreeDupsByHash is checked file by file.
use dup_detector.Prelude.{
  ℕ, ◌+◌, ◌≤◌, ◌≡◌, refl, sym, ap, ◌∙◌, ◌⊎◌, inl, inr, true, false, not, ◌||◌, some, List, [], ◌∷◌,
  Memᴰ, arith, ◌==◌, length, drop, list_eq, list_eq_iff, Bool-cases, Option-cases, mem_of_perm,
  mem-cons_cases, sort, mem-sort, larger_first, Order,
}
use dup_detector.Text.{Text}
use dup_detector.Files.{ScannedFile, TreeDupPair, signed_rank}
use dup_detector.TreeDup.{
  files_under_dir, slice_from, relative_files, file_key, all_match, verify_tree_pair_mtime,
  remove_sub_pairs_fast,
}
use dup_detector.TreeDup.Below.{AreSorted, files_below, files_under_dir-files_below}
use dup_detector.TreeDup.SubPairs.{remove_sub_pairs_fast-covers}
use dup_detector.TreeDup.ByHash.{candidate_pairs, confirm, find_tree_dups_by_hash}

pub slice_from-drop : (n : ℕ) (s rel : Text) → slice_from n s ≡ some rel → rel ≡ drop n s
unfolding slice_from
slice_from-drop n s rel h = ground (arith)

-- The file has this path after its first `n` bytes, and this size and mtime.
abbrev pub IsAt : ℕ → Text → ℕ × ℕ → ScannedFile → Type 0
IsAt n rel k g = (rel ≡ drop n g.path) × (k ≡ (g.size, g.mod_time))

pub relative_files-from :
    (n : ℕ) (files : List ScannedFile) (m out : List (Text × (ℕ × ℕ))) (rel : Text) (k : ℕ × ℕ)
    → relative_files n files m ≡ some out
    → file_key rel out ≡ some k
    → (file_key rel m ≡ some k) ⊎ ((g : ScannedFile) × Memᴰ g files × IsAt n rel k g)
unfolding relative_files file_key
relative_files-from n [] m out rel k h e = inl (ground arith)
relative_files-from n (f ∷ files) m out rel k h e = elim (Option-cases (slice_from n f.path)) [
  | inl a ↦ absurd (ground (arith, a))
  | inr (r, a) ↦
      elim (relative_files-from n files ((r, (f.size, f.mod_time)) ∷ m) out rel k (rw a at h) e) [
        | inr (g, j, w) ↦ inr (g, Memᴰ.tail j, w)
        | inl b ↦ elim (Bool-cases (list_eq r rel)) [
          | inr c ↦ inl (rw c at b)
          | inl c ↦ inr (
            f,
            Memᴰ.head refl,
            (
              sym ((list_eq_iff r rel).0 c) ∙ slice_from-drop n f.path r a,
              let d : some (f.size, f.mod_time) ≡ some k = rw c at b in ground arith,
            ),
          )
        ]
      ]
]

pub all_match-each :
    (n : ℕ) (m : List (Text × (ℕ × ℕ))) (files : List ScannedFile) {f : ScannedFile}
    → all_match n m files ≡ some true
    → Memᴰ f files
    → file_key (drop n f.path) m ≡ some (f.size, f.mod_time)
unfolding all_match
all_match-each n m [] h i = elim i [ ]
all_match-each n m (g ∷ files) {f = f} h i = elim (Option-cases (slice_from n g.path)) [
  | inl a ↦ absurd (ground (arith, a))
  | inr (rel, a) ↦
      let cut = slice_from-drop n g.path rel a in
      elim (Option-cases (file_key rel m)) [
        | inl b ↦ absurd (ground (arith, a, b))
        | inr (k, b) ↦
            let (size, mtime) = k in
            let (now, later) : (k ≡ (g.size, g.mod_time)) × (all_match n m files ≡ some true) =
              (ground (arith, a, b), ground (arith, a, b)) in
            elim (mem-cons_cases i) [
              | inl p ↦ rw (p, ← cut) (b ∙ ap some now)
              | inr t ↦ all_match-each n m files later t
            ]
      ]
]

-- Both lists have files, as many as each other, and each file of the first has a file of the second
-- with the same size, mtime and path after the first `na` and `nb` bytes.
abbrev pub SameListed : ℕ → ℕ → List ScannedFile → List ScannedFile → Type 0
SameListed na nb files_a files_b =
    (1 ≤ length files_a)
    × (length files_a ≡ length files_b)
    × ((f : ScannedFile)
        → Memᴰ f files_a
        → (g : ScannedFile) × Memᴰ g files_b
          × (drop nb g.path ≡ drop na f.path)
          × (g.size ≡ f.size)
          × (g.mod_time ≡ f.mod_time))

pub all_match-SameListed :
    (na nb : ℕ) (files_a files_b : List ScannedFile) (m : List (Text × (ℕ × ℕ)))
    → (length files_a == 0 || not (length files_a == length files_b)) ≡ false
    → relative_files nb files_b [] ≡ some m
    → all_match na m files_a ≡ some true
    → SameListed na nb files_a files_b
unfolding file_key
all_match-SameListed na nb files_a files_b m e a matched = (
  ground arith,
  ground arith,
  λ f i.
      elim (relative_files-from nb files_b [] m (drop na f.path) (f.size, f.mod_time) a
        (all_match-each na m files_a matched i)) [
          | inl none_yet ↦ absurd (ground arith)
          | inr (g, j, w) ↦ (g, j, sym w.0, ap (λ x. x.0) (sym w.1), ap (λ x. x.1) (sym w.1))
        ],
)

-- Below both directories are files, as many as below each other, and each file below the first has
-- a file below the second with the same relative path, size and mtime.
abbrev pub SameFiles : Text → Text → List ScannedFile → Type 0
SameFiles dir_a dir_b all_files =
    SameListed (length dir_a + 1) (length dir_b + 1) (files_below dir_a all_files)
      (files_below dir_b all_files)

-- On files in the order of their paths the check of a tree pair passes only if both trees have files,
-- equally many, and each file of the first has a file of the second with its relative path, its size
-- and its mtime.
verify_tree_pair_mtime-SameFiles :
    (dir_a dir_b : Text) (all_files : List ScannedFile)
    → AreSorted all_files
    → verify_tree_pair_mtime dir_a dir_b all_files ≡ some true
    → SameFiles dir_a dir_b all_files
unfolding verify_tree_pair_mtime
verify_tree_pair_mtime-SameFiles dir_a dir_b all_files sorted h =
    let files_a = files_under_dir dir_a all_files in
    let files_b = files_under_dir dir_b all_files in
    let nb = length dir_b + 1 in
    let na = length dir_a + 1 in
    elim (Bool-cases (length files_a == 0 || not (length files_a == length files_b))) [
      | inl e ↦ absurd (ground (arith, e))
      | inr e ↦ elim (Option-cases (relative_files nb files_b [])) [
        | inl a ↦ let z = rw (e, a) at h in absurd (ground arith)
        | inr (m, a) ↦
            rw
              (
                ← files_under_dir-files_below dir_a all_files sorted,
                ← files_under_dir-files_below dir_b all_files sorted,
              )
              (all_match-SameListed na nb files_a files_b m e a (rw (e, a) at h))
      ]
    ]

confirm-each :
    (all_files : List ScannedFile) (pairs out : List TreeDupPair) {p : TreeDupPair}
    → confirm all_files pairs ≡ some out
    → Memᴰ p out
    → Memᴰ p pairs × (verify_tree_pair_mtime p.dir_a p.dir_b all_files ≡ some true)
unfolding confirm
confirm-each all_files [] out h m = let e : [] ≡ out = ground arith in elim (rw (← e) at m) [ ]
confirm-each all_files (q ∷ pairs) out {p = p} h m =
    elim (Option-cases (verify_tree_pair_mtime q.dir_a q.dir_b all_files)) [
      | inl a ↦ absurd (ground (arith, a))
      | inr (ok, a) ↦ elim (Option-cases (confirm all_files pairs)) [
        | inl b ↦ absurd (ground (arith, a, b))
        | inr (rest, b) ↦ elim (Bool-cases ok) [
          | inl c ↦
              let e : q ∷ rest ≡ out = ground (arith, a, b, c) in
              elim (mem-cons_cases (rw (← e) at m)) [
                | inl s ↦ (Memᴰ.head s, rw s (a ∙ ap some c))
                | inr t ↦ let (n, v) = confirm-each all_files pairs rest b t in (Memᴰ.tail n, v)
              ]
          | inr c ↦
              let e : rest ≡ out = ground (arith, a, b, c) in
              let (n, v) = confirm-each all_files pairs rest b (rw (← e) at m) in (Memᴰ.tail n, v)
        ]
      ]
    ]

-- When the pass by hash over files in the order of their paths reports a tree pair, the pair comes
-- from a bucket of equal hashes, and the files whose paths are its two cleaned directories, a slash
-- and more are the same: as many, at least one, and each of the first directory has one of the second
-- with its path after the directory and the slash, its size and its mtime.
pub find_tree_dups_by_hash-SameFiles :
    (order : Order) (all_files : List ScannedFile) (pairs : List TreeDupPair) (p : TreeDupPair)
    → AreSorted all_files
    → find_tree_dups_by_hash order all_files ≡ some pairs
    → Memᴰ p pairs
    → Memᴰ p (candidate_pairs order all_files) × SameFiles p.dir_a p.dir_b all_files
unfolding find_tree_dups_by_hash
find_tree_dups_by_hash-SameFiles order all_files pairs p sorted h m =
    let top = remove_sub_pairs_fast order (candidate_pairs order all_files) in
    elim (Option-cases (confirm all_files top)) [
      | inl a ↦ absurd (ground (arith, a))
      | inr (out, a) ↦
          let e : sort (larger_first (λ p. signed_rank p.total_size)) (order.visit _ out) ≡ pairs =
            ground (arith, a) in
          let kept = mem_of_perm (order.visit-perm _ out) (mem-sort _ _ (rw (← e) at m)) in
          let (n, v) = confirm-each all_files top out a kept in
          (
            (remove_sub_pairs_fast-covers order (candidate_pairs order all_files) p).0 n,
            verify_tree_pair_mtime-SameFiles p.dir_a p.dir_b all_files sorted v,
          )
    ]
