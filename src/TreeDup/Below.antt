-- ===== src/TreeDup/Below.antt =====
-- On files in the order of their paths, filesUnderDir (tree_dup.go) finds those below the directory.
use dup_detector.Prelude.{
  ℕ, zero, suc, ◌+◌, ◌/◌, ◌≤◌, ◌<◌, ◌≡◌, refl, sym, ap, inl, inr, Bool, true, false, ◌&&◌, List, [],
  ◌∷◌, ◌++◌, Memᴰ, arith, ltb, ◌==◌, length, get_elem?, get_elem?-mem, drop, select, Bool-cases,
  Option-cases,
}
use dup_detector.Text.{Text, slash, text_lt, has_prefix}
use dup_detector.Text.Paths.{clean}
use dup_detector.Files.{ScannedFile}
use dup_detector.TreeDup.{search, take_below, path_from, files_under_dir}

-- no file comes before one with a smaller path
abbrev pub AreSorted : List ScannedFile → Type 0
AreSorted [] = Unit
AreSorted (f ∷ files) =
    ((g : ScannedFile) → Memᴰ g files → text_lt g.path f.path ≡ false) × AreSorted files

lt_no_prefix : (p q : Text) → text_lt p q ≡ true → has_prefix p q ≡ false
unfolding text_lt has_prefix
lt_no_prefix [] [] h = absurd (ground (arith, h))
lt_no_prefix [] (y ∷ q) h = refl
lt_no_prefix (x ∷ p) [] h = absurd (ground (arith, h))
lt_no_prefix (x ∷ p) (y ∷ q) h = elim (Bool-cases (x == y)) [
  | inr e ↦ ground (arith, e)
  | inl e ↦ let rest = lt_no_prefix p q (ground (arith, h, e)) in ground (arith, rest)
]

-- Texts with one prefix come before what is neither before the prefix nor has it.
prefix_block :
    (pre q r : Text)
    → text_lt q pre ≡ false
    → has_prefix q pre ≡ false
    → has_prefix r pre ≡ true
    → text_lt r q ≡ true
unfolding text_lt has_prefix
prefix_block [] q r a b c = absurd (ground (arith, b))
prefix_block (y ∷ pre) [] r a b c = absurd (ground (arith, a))
prefix_block (y ∷ pre) (x ∷ q) [] a b c = absurd (ground (arith, c))
prefix_block (y ∷ pre) (x ∷ q) (z ∷ r) a b c = elim (Bool-cases (x == y)) [
  | inl e ↦
      let rest =
        prefix_block pre q r (ground (arith, a, e)) (ground (arith, b, e)) (ground (arith, c)) in
      ground (arith, c, e, rest)
  | inr e ↦ ground (arith, a, c, e)
]

not_lt_trans : (p q r : Text) → text_lt q p ≡ false → text_lt r q ≡ false → text_lt r p ≡ false
unfolding text_lt
not_lt_trans [] q [] a b = refl
not_lt_trans [] q (z ∷ r) a b = refl
not_lt_trans (x ∷ p) [] r a b = absurd (ground (arith, a))
not_lt_trans (x ∷ p) (y ∷ q) [] a b = absurd (ground (arith, b))
not_lt_trans (x ∷ p) (y ∷ q) (z ∷ r) a b = elim (Bool-cases (x == y && y == z)) [
  | inl e ↦
      let rest = not_lt_trans p q r (ground (arith, a, e)) (ground (arith, b, e)) in
      ground (arith, a, b, e, rest)
  | inr e ↦ ground (arith, a, b, e)
]

path_from_mono :
    (pre : Text) (files : List ScannedFile) (i j : ℕ)
    → AreSorted files
    → i ≤ j
    → path_from pre files i ≡ true
    → path_from pre files j ≡ true
unfolding path_from
path_from_mono pre [] i j sorted le h = refl
path_from_mono pre (f ∷ files) zero zero sorted le h = h
path_from_mono pre (f ∷ files) zero (suc j) sorted le h = elim (Option-cases (get_elem? files j)) [
  | inl e ↦ rw (path_from, e) refl
  | inr (g, e) ↦
      let after = sorted.0 g (get_elem?-mem files j e) in
      let later = not_lt_trans pre f.path g.path (ground (arith, h)) after in
      rw (path_from, e) (ground (arith, later))
]
path_from_mono pre (f ∷ files) (suc i) zero sorted le h = absurd (omega (arith, le))
path_from_mono pre (f ∷ files) (suc i) (suc j) sorted le h =
    path_from_mono pre files i j sorted.1 (omega (arith, le)) h

-- the tests before a place fail, and all from it on hold
abbrev Splits : (ℕ → Bool) → ℕ → Type 0
Splits p k = ((i : ℕ) → i < k → p i ≡ false) × ((i : ℕ) → k ≤ i → p i ≡ true)

search-Splits :
    (fuel : ℕ) (p : ℕ → Bool) (lo hi : ℕ)
    → hi ≤ lo + fuel
    → lo ≤ hi
    → ((i j : ℕ) → i ≤ j → p i ≡ true → p j ≡ true)
    → ((i : ℕ) → i < lo → p i ≡ false)
    → ((i : ℕ) → hi ≤ i → p i ≡ true)
    → Splits p (search fuel p lo hi)
unfolding search
search-Splits zero p lo hi fits le mono low high = (low, λ i h. high i (omega (arith, fits, h)))
search-Splits (suc fuel) p lo hi fits le mono low high = elim (Bool-cases (ltb lo hi)) [
  | inr e ↦ rw (search, e) (low, λ i h. high i (ground (arith, e, h)))
  | inl e ↦
      let middle = (lo + hi) / 2 in
      let less : lo < hi = ground (arith, e) in
      let from : lo ≤ middle = omega (arith, less) in
      let to : middle < hi = omega (arith, less) in
      elim (Bool-cases (p middle)) [
        | inl d ↦
            rw (search, e, d)
              (search-Splits fuel p lo middle (omega (arith, fits, to)) from mono low
                (λ i h. mono middle i h d))
        | inr d ↦
            rw (search, e, d)
              (search-Splits fuel p (middle + 1) hi (omega (arith, fits, from)) (omega (arith, to))
                mono
                (λ i h. elim (Bool-cases (p i)) [
                  | inr f ↦ f
                  | inl f ↦ let q = mono i middle (omega (arith, h)) f in ground (arith, d, q)
                ])
                high)
      ]
]

-- the files whose path begins with the prefix
abbrev with_prefix : Text → List ScannedFile → List ScannedFile
with_prefix pre files = select (λ f. has_prefix f.path pre) files

none_with_prefix :
    (pre : Text) (files : List ScannedFile)
    → ((g : ScannedFile) → Memᴰ g files → has_prefix g.path pre ≡ false)
    → with_prefix pre files ≡ []
none_with_prefix pre [] h = refl
none_with_prefix pre (f ∷ files) h =
    let here = h f (Memᴰ.head refl) in
    rw here (none_with_prefix pre files (λ g m. h g (Memᴰ.tail m)))

take_below-with_prefix :
    (pre : Text) (files : List ScannedFile)
    → AreSorted files
    → ((i : ℕ) → path_from pre files i ≡ true)
    → take_below pre files ≡ with_prefix pre files
unfolding take_below path_from
take_below-with_prefix pre [] sorted h = refl
take_below-with_prefix pre (f ∷ files) sorted h = elim (Bool-cases (has_prefix f.path pre)) [
  | inl e ↦ rw e (ap (◌∷◌ f) (take_below-with_prefix pre files sorted.1 (λ i. h (suc i))))
  | inr e ↦
      let first = h 0 in
      let gone = none_with_prefix pre files (λ g m. elim (Bool-cases (has_prefix g.path pre)) [
        | inr d ↦ d
        | inl d ↦
            let before = prefix_block pre f.path g.path (ground (arith, first)) e d in
            let after = sorted.0 g m in ground (arith, before, after)
      ]) in
      rw e (sym gone)
]

drop-with_prefix :
    (pre : Text) (files : List ScannedFile) (k : ℕ)
    → AreSorted files
    → Splits (path_from pre files) k
    → take_below pre (drop k files) ≡ with_prefix pre files
unfolding path_from
drop-with_prefix pre files zero sorted (low, high) =
    take_below-with_prefix pre files sorted (λ i. high i (omega arith))
drop-with_prefix pre [] (suc k) sorted (low, high) =
    absurd (let q = low 0 (omega arith) in ground (arith, q))
drop-with_prefix pre (f ∷ files) (suc k) sorted (low, high) =
    let first = low 0 (omega arith) in
    let outside = lt_no_prefix f.path pre (ground (arith, first)) in
    rw outside (
      drop-with_prefix pre files k sorted.1
        (λ i h. low (suc i) (omega (arith, h)), λ i h. high (suc i) (omega (arith, h))))

beyond :
    (pre : Text) (files : List ScannedFile) (i : ℕ)
    → length files ≤ i
    → path_from pre files i ≡ true
unfolding path_from
beyond pre [] i h = refl
beyond pre (f ∷ files) zero h = absurd (omega (arith, h))
beyond pre (f ∷ files) (suc i) h = beyond pre files i (omega (arith, h))

-- The files whose path is that of the directory, cleaned, a slash and more.
abbrev pub files_below : Text → List ScannedFile → List ScannedFile
files_below dir files = with_prefix (clean dir ++ slash ∷ []) files

pub files_under_dir-files_below :
    (dir : Text) (files : List ScannedFile)
    → AreSorted files
    → files_under_dir dir files ≡ files_below dir files
unfolding files_under_dir
files_under_dir-files_below dir files sorted =
    let pre = clean dir ++ slash ∷ [] in
    let n = length files in
    drop-with_prefix pre files (search n (path_from pre files) 0 n) sorted (
      search-Splits n (path_from pre files) 0 n (omega arith) (omega arith)
        (λ i j le h. path_from_mono pre files i j sorted le h) (λ i h. absurd (omega (arith, h)))
        (λ i h. beyond pre files i h))
