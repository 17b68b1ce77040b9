-- ===== src/Options/Attribution.antt =====
-- Each path is scanned below at most one of the roots of a run (main.go).
use dup_detector.Prelude.{
  ℕ, zero, suc, ◌≡◌, ◌≢◌, refl, ap, ◌∙◌, ◌⊎◌, inl, inr, true, false, ◌||◌, Option, some, List, [],
  ◌∷◌, ◌++◌, map, Memᴰ, Permᴰ, arith, ◌==◌, get_elem?, get_elem?-mem, list_eq, has, text_eq, nat_eq,
  any-of, Distinct, Distinct-perm, mem-map, mem-append_cases, mem-cons_cases, mem-has, Bool-cases,
  Option-cases,
}
use dup_detector.Prelude.Runs.{done_inj, done, >>=-eq-done}
use dup_detector.Text.{Text, slash, is_subdir}
use dup_detector.Text.Laws.{is_subdir-append}
use dup_detector.Text.Paths.{clean}
use dup_detector.Files.{ScanConfig}
use dup_detector.Scan.{Walk, leave, verdict}
use dup_detector.Options.{Options, Host, root_excludes, resolve_roots, roots_of}
use dup_detector.Options.Roots.{nested}

perm-last : (x : Text) (xs : List Text) → Permᴰ (x ∷ xs) (xs ++ x ∷ [])
perm-last x [] = Permᴰ.cons refl Permᴰ.nil
perm-last x (y ∷ xs) = Permᴰ.trans (Permᴰ.swap refl refl) (Permᴰ.cons refl (perm-last x xs))

-- two places of a list without repetition hold two elements
other_at :
    (xs : List Text) (i j : ℕ) {a b : Text}
    → Distinct xs
    → get_elem? xs i ≡ some a
    → get_elem? xs j ≡ some b
    → i ≢ j
    → a ≢ b
other_at [] i j d at_i at_j ne e = ground arith
other_at (x ∷ xs) zero zero d at_i at_j ne e = ne refl
other_at (x ∷ xs) zero (suc j) d at_i at_j ne e =
    let h = mem-has _ xs (get_elem?-mem xs j at_j) in ground (arith, d.0, h, at_i, e)
other_at (x ∷ xs) (suc i) zero d at_i at_j ne e =
    let h = mem-has _ xs (get_elem?-mem xs i at_i) in ground (arith, d.0, h, at_j, e)
other_at (x ∷ xs) (suc i) (suc j) d at_i at_j ne e =
    other_at xs i j d.1 at_i at_j (λ f. ne (ap suc f)) e

-- The directory is not `/`, and the path is its path, a slash and more.
abbrev pub IsBelow : Text → Text → Type 0
IsBelow dir path = (dir ≢ slash ∷ []) × (r : Text) × (path ≡ dir ++ slash ∷ r)

is_subdir_of : (dir path : Text) → IsBelow dir path → is_subdir dir path ≡ true
is_subdir_of dir path (other, r, e) = rw e (is_subdir-append dir r)

module _ {F : Type 0} (host : Host F) where
  -- what Abs returns is clean
  abbrev pub IsCleaned : Type 0
  IsCleaned = (path abs : Text) → host.abs path ≡ some abs → clean abs ≡ abs

  -- no root twice, and each root clean
  abbrev AreRoots : List Text → Type 0
  AreRoots roots = Distinct roots × ((r : Text) → Memᴰ r roots → clean r ≡ r)

  resolve_roots-AreRoots :
      (raw roots out : List Text)
      → IsCleaned
      → resolve_roots host raw roots ≡ done out
      → AreRoots roots
      → AreRoots out
  unfolding resolve_roots
  resolve_roots-AreRoots [] roots out cleaned h good = let same = done_inj h in rw (← same) good
  resolve_roots-AreRoots (r ∷ raw) roots out cleaned h good = elim (Option-cases (host.abs r)) [
    | inl e ↦ absurd (ground (arith, h, e))
    | inr (abs, e) ↦ elim (Bool-cases (has abs roots)) [
      | inl known ↦
          resolve_roots-AreRoots raw roots out cleaned (rw (resolve_roots, e, known) at h) good
      | inr new ↦
          resolve_roots-AreRoots raw (roots ++ abs ∷ []) out cleaned
            (rw (resolve_roots, e, new) at h)
            (
              Distinct-perm (perm-last abs roots) (new, good.0),
              λ q m. elim (mem-append_cases roots (abs ∷ []) m) [
                | inl old ↦ good.1 q old
                | inr last ↦ elim (mem-cons_cases last) [
                  | inl same ↦ rw same (cleaned r abs e)
                  | inr t ↦ elim t [ ]
                ]
              ],
            )
    ]
  ]

  -- the walk of root i
  abbrev pub walk_of : ScanConfig → Option ℕ → ℕ → Text → List Text → Walk
  walk_of cfg device i root roots = record {
    root = root;
    cfg = cfg;
    excludes = map clean (root_excludes i root 0 roots);
    device = device;
  }

  left_out :
      (rel : Text → Text → Option Text) (w : Walk) (path excl : Text)
      → Memᴰ excl w.excludes
      → is_subdir excl (clean path) ≡ true
      → verdict rel w path ≡ leave
  unfolding verdict
  left_out rel w path excl m h =
      let found =
        any-of (λ x. list_eq (clean path) x || is_subdir x (clean path)) w.excludes m
          (ground (arith, h)) in
      rw (verdict, found) refl

  -- If Abs returns clean paths, then of any two roots of a run other than `/` that a clean path lies below,
  -- the scan of one leaves the path out: no file is handed on from two such roots.
  pub roots_of-apart :
      (o : Options) (args roots : List Text) (i j : ℕ) (a b path : Text)
      (rel : Text → Text → Option Text) (cfg : ScanConfig) (device other_device : Option ℕ)
      → IsCleaned
      → roots_of host o args ≡ done roots
      → get_elem? roots i ≡ some a
      → get_elem? roots j ≡ some b
      → i ≢ j
      → clean path ≡ path
      → IsBelow a path
      → IsBelow b path
      → (verdict rel (walk_of cfg device i a roots) path ≡ leave)
        ⊎ (verdict rel (walk_of cfg other_device j b roots) path ≡ leave)
  unfolding roots_of
  roots_of-apart o args roots i j a b path rel cfg device other_device cleaned h at_a at_b ne tidy
        below_a below_b =
      let in_a = is_subdir_of a path below_a in
      let in_b = is_subdir_of b path below_b in
      let (out, e, rest) = >>=-eq-done (resolve_roots host (args ++ o.additional_roots) []) _ h in
      let same : out ≡ roots = ground (arith, rest) in
      let (distinct, clean_of) =
        resolve_roots-AreRoots (args ++ o.additional_roots) [] roots cleaned (e ∙ ap done same)
          (tt, λ q m. elim m [ ]) in
      let clean_a = clean_of a (get_elem?-mem roots i at_a) in
      let clean_b = clean_of b (get_elem?-mem roots j at_b) in
      elim (nested roots i j a b path at_a at_b ne (other_at roots i j distinct at_a at_b ne) in_a
        in_b) [
          | inl m ↦ inl (
              left_out rel (walk_of cfg device i a roots) path (clean b) (mem-map clean _ m)
                (rw (clean_b, tidy) in_b))
          | inr m ↦ inr (
              left_out rel (walk_of cfg other_device j b roots) path (clean a) (mem-map clean _ m)
                (rw (clean_a, tidy) in_a))
        ]

-- In a list of roots, of which each is `/` or has one slash at its
-- front and more, no root, and so not one inside it, is left out of the scan of `/`.
pub root_excludes-slash :
    (i j : ℕ) (roots : List Text)
    → ((r : Text)
        → Memᴰ r roots
        → (r ≡ slash ∷ []) ⊎ ((c : ℕ) × (s : Text) × (r ≡ slash ∷ c ∷ s) × ((c == slash) ≡ false)))
    → root_excludes i (slash ∷ []) j roots ≡ []
unfolding root_excludes is_subdir
root_excludes-slash i j [] h = refl
root_excludes-slash i j (r ∷ roots) h =
    let rest = root_excludes-slash i (suc j) roots (λ q m. h q (Memᴰ.tail m)) in
    let outside : is_subdir (slash ∷ []) r ≡ false = elim (h r (Memᴰ.head refl)) [
      | inl e ↦ rw e refl
      | inr (c, s, e, ne) ↦ rw e (ground (arith, ne))
    ] in
    ground (arith, outside, rest)
