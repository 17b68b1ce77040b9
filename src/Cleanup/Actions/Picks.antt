-- ===== src/Cleanup/Actions/Picks.antt =====
-- Disposing of the files at chosen indices: total where the indices are in range, and a file at
-- another index is spared if the paths are distinct.
use dup_detector.Prelude.{
  ◌≤◌, length-map, Memᴰ, ◌+◌, Option-cases, ℕ, zero, suc, ◌<◌, ◌≡◌, refl, ap, inl, inr, true, false,
  none, some, List, [], ◌∷◌, arith, text_eq, nat_eq, has, mem-has, Distinct, length, get_elem?,
  get_elem?-lt, get_elem?-mem, mem-map, Bool-cases, list_eq, list_eq_iff,
}
use dup_detector.Text.{Text}
use dup_detector.Files.{ScannedFile}
use dup_detector.Glob.{select_by_glob}
use dup_detector.Glob.Selection.{select_by_glob-matches}
use dup_detector.Cleanup.Dispose.{Config, Disk, State, paths_of}
use dup_detector.Cleanup.Dispose.Laws.{
  Disposes, Disposes-refl, Disposes-trans, Disposes-widen, dispose_file-Disposes, Disposes-spares,
}
use dup_detector.Cleanup.Actions.{range_from, remove_live, dispose_at}

abbrev pub AllBelow : ℕ → List ℕ → Type 0
AllBelow n [] = Unit
AllBelow n (j ∷ js) = (j < n) × AllBelow n js

-- the paths at the chosen indices
pub pick : List ScannedFile → List ℕ → List Text
pick files [] = []
pick files (j ∷ js) = elim (get_elem? files j) [
  | none ↦ pick files js
  | some f ↦ f.path ∷ pick files js
]

path_at-has :
    (files : List ScannedFile) (i : ℕ) (f : ScannedFile)
    → get_elem? files i ≡ some f
    → has f.path (paths_of files) ≡ true
path_at-has files i f h =
    mem-has f.path (paths_of files) (mem-map (λ g. g.path) files (get_elem?-mem files i h))

-- Distinct paths: two indices with one path are the same.
Distinct-index :
    (files : List ScannedFile) (i j : ℕ) (f g : ScannedFile)
    → Distinct (paths_of files)
    → get_elem? files i ≡ some f
    → get_elem? files j ≡ some g
    → f.path ≡ g.path
    → i ≡ j
Distinct-index [] i j f g d hf hg e = absurd (ground arith)
Distinct-index (x ∷ files) zero zero f g d hf hg e = refl
Distinct-index (x ∷ files) zero (suc j) f g d hf hg e =
    let fx : f ≡ x = ground arith in
    let h : has x.path (paths_of files) ≡ true = rw (← fx) (rw e (path_at-has files j g hg)) in
    absurd (ground arith)
Distinct-index (x ∷ files) (suc i) zero f g d hf hg e =
    let gx : g ≡ x = ground arith in
    let h : has x.path (paths_of files) ≡ true = rw (← gx) (rw (← e) (path_at-has files i f hf)) in
    absurd (ground arith)
Distinct-index (x ∷ files) (suc i) (suc j) f g d hf hg e =
    ap suc (Distinct-index files i j f g d.1 hf hg e)

pick-cons :
    (files : List ScannedFile) (j : ℕ) (js : List ℕ) (f : ScannedFile)
    → get_elem? files j ≡ some f
    → pick files (j ∷ js) ≡ f.path ∷ pick files js
unfolding pick
pick-cons files j js f e = rw (e, pick)

pub pick_spares :
    (files : List ScannedFile) (i : ℕ) (f : ScannedFile) (js : List ℕ)
    → Distinct (paths_of files)
    → get_elem? files i ≡ some f
    → has i js ≡ false
    → has f.path (pick files js) ≡ false
unfolding pick
pick_spares files i f [] d h n = refl
pick_spares files i f (j ∷ js) d h n =
    let rest = pick_spares files i f js d h (ground arith) in
    elim (Option-cases (get_elem? files j)) [
      | inl e ↦ rw (e, pick) rest
      | inr (g, e) ↦
          rw (e, pick)
            (elim (Bool-cases (list_eq f.path g.path)) [
              | inl q ↦
                  let same = Distinct-index files i j f g d h e ((list_eq_iff f.path g.path).0 q) in
                  absurd (ground arith)
              | inr q ↦ ground arith
            ])
    ]

module _ {W : Type 0} (disk : Disk W) (cfg : Config) where
  remove_live-Disposes :
      (f : ScannedFile) (s : State W) → Disposes (f.path ∷ []) s (remove_live disk cfg f s)
  unfolding remove_live
  remove_live-Disposes f s = elim (Bool-cases (has f.path s.deleted)) [
    | inl e ↦ rw e (Disposes-refl (f.path ∷ []) s)
    | inr e ↦ rw e (dispose_file-Disposes disk cfg f.path s)
  ]

  -- With the indices in range there is no panic, and only the chosen files are disposed of.
  pub dispose_at-total :
      (files : List ScannedFile) (js : List ℕ) (s : State W)
      → AllBelow (length files) js
      → (s' : State W) × (dispose_at disk cfg files js s ≡ some s') × Disposes (pick files js) s s'
  unfolding dispose_at
  dispose_at-total files [] s b = (s, refl, Disposes-refl (pick files []) s)
  dispose_at-total files (j ∷ js) s b =
      let (f, e) = get_elem?-lt files j b.0 in
      let (s', run, d) = dispose_at-total files js (remove_live disk cfg f s) b.1 in
      (
        s',
        rw (e, dispose_at) run,
        rw (pick-cons files j js f e) (
            Disposes-trans (f.path ∷ pick files js)
              (Disposes-widen (f.path ∷ []) (f.path ∷ pick files js) (λ q h. ground arith)
                (remove_live-Disposes f s))
              (Disposes-widen (pick files js) (f.path ∷ pick files js) (λ q h. ground arith) d)),
      )

  -- A file at an index that is not chosen stays alive.
  pub dispose_at-spares :
      (files : List ScannedFile) (js : List ℕ) (i : ℕ) (f : ScannedFile) (s : State W)
      → AllBelow (length files) js
      → Distinct (paths_of files)
      → get_elem? files i ≡ some f
      → has i js ≡ false
      → has f.path s.deleted ≡ false
      → (s' : State W) × (dispose_at disk cfg files js s ≡ some s')
        × (has f.path s'.deleted ≡ false)
  dispose_at-spares files js i f s b d h n alive =
      let (s', run, dis) = dispose_at-total files js s b in
      (s', run, Disposes-spares (pick files js) f.path dis (pick_spares files i f js d h n) alive)

pub pick-within :
    (files : List ScannedFile) (js : List ℕ) (q : Text)
    → has q (paths_of files) ≡ false
    → has q (pick files js) ≡ false
unfolding pick
pick-within files [] q h = refl
pick-within files (j ∷ js) q h =
    let rest = pick-within files js q h in
    elim (Option-cases (get_elem? files j)) [
      | inl e ↦ rw (e, pick) rest
      | inr (g, e) ↦
          rw (e, pick)
            (elim (Bool-cases (list_eq q g.path)) [
              | inl p ↦
                  let same : q ≡ g.path = (list_eq_iff q g.path).0 p in
                  let bad : has q (paths_of files) ≡ true = rw same (path_at-has files j g e) in
                  absurd (ground arith)
              | inr p ↦ ground arith
            ])
    ]

lt_of_get_elem {ℓ} :
    {A : Type ℓ} (xs : List A) (i : ℕ) {a : A} → get_elem? xs i ≡ some a → i < length xs
lt_of_get_elem [] i h = absurd (ground arith)
lt_of_get_elem (x ∷ xs) zero h = omega arith
lt_of_get_elem (x ∷ xs) (suc i) h = omega (arith, lt_of_get_elem xs i h)

AllBelow-of : (n : ℕ) (js : List ℕ) → ((j : ℕ) → Memᴰ j js → j < n) → AllBelow n js
AllBelow-of n [] h = tt
AllBelow-of n (j ∷ js) h = (h j (Memᴰ.head refl), AllBelow-of n js (λ i m. h i (Memᴰ.tail m)))

-- the indices that --remove-by-glob selects
pub glob-AllBelow :
    (files : List ScannedFile) (glob : Text)
    → AllBelow (length files) (select_by_glob (paths_of files) glob)
glob-AllBelow files glob = AllBelow-of (length files) _ (λ j m.
    let (p, e, _) = select_by_glob-matches (paths_of files) glob j m in
    omega
      (arith, lt_of_get_elem (paths_of files) j e, length-map (λ (f : ScannedFile). f.path) files))

-- the indices that keep-first selects
pub range_from-AllBelow : (m i n : ℕ) → i + n ≤ m → AllBelow m (range_from i n)
unfolding range_from
range_from-AllBelow m i zero h = tt
range_from-AllBelow m i (suc n) h = (omega arith, range_from-AllBelow m (suc i) n (omega arith))

pub has-range_from : (i j n : ℕ) → i < j → has i (range_from j n) ≡ false
unfolding range_from
has-range_from i j zero h = refl
has-range_from i j (suc n) h = ground (arith, has-range_from i (suc j) n)
