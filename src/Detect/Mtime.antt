-- ===== src/Detect/Mtime.antt =====
-- The size and mtime pass reports each class of files of one size and one mtime, and no other.
use dup_detector.Prelude.{
  ℕ, ◌≤◌, ◌≡◌, ◌≢◌, refl, sym, ap, ◌∙◌, ◌↔◌, inl, inr, Bool, true, false, not, ◌&&◌, List, [], ◌∷◌,
  map, Memᴰ, arith, ◌==◌, length, any, any-of, any-true, select, mem-select, mem-select_of, nat_eq,
  Bool-cases, Order, mem_of_perm, perm-sym, mem-map, mem-map_inv, mem-cons_cases,
}
use dup_detector.Prelude.Grouping.{group, values_for, group-entry, group-entry_of}
use dup_detector.Files.{ScannedFile, DupGroup}
use dup_detector.Detect.{spans_multiple_sources, is_candidate, group_by_mtime, mtime_groups}

-- Two of the files come from different roots.
abbrev pub Spans : List ScannedFile → Type 0
Spans files =
    (f : ScannedFile) × (g : ScannedFile) × Memᴰ f files × Memᴰ g files × (f.source ≢ g.source)

other_source :
    (x f : ScannedFile) (files : List ScannedFile)
    → Memᴰ f (x ∷ files)
    → (f.source == x.source) ≡ false
    → any (λ g. not (g.source == x.source)) files ≡ true
other_source x f files m h = elim (mem-cons_cases m) [
  | inl e ↦
      let s : f.source ≡ x.source = ap (λ (y : ScannedFile). y.source) e in absurd (ground arith)
  | inr t ↦ any-of (λ g. not (g.source == x.source)) files t (ground arith)
]

Spans→spans : (files : List ScannedFile) → Spans files → spans_multiple_sources files ≡ true
unfolding spans_multiple_sources
Spans→spans [] (f, g, m, n, h) = elim m [ ]
Spans→spans (x ∷ files) (f, g, m, n, h) = elim (Bool-cases (f.source == x.source)) [
  | inr d ↦ other_source x f files m d
  | inl d ↦ elim (Bool-cases (g.source == x.source)) [
    | inr k ↦ other_source x g files n k
    | inl k ↦ let same : f.source ≡ g.source = ground arith in absurd (h same)
  ]
]

spans→Spans : (files : List ScannedFile) → spans_multiple_sources files ≡ true → Spans files
unfolding spans_multiple_sources
spans→Spans [] h = absurd (ground arith)
spans→Spans (x ∷ files) h =
    let (g, m, e) = any-true (λ y. not (y.source == x.source)) files h in
    (g, x, Memᴰ.tail m, Memᴰ.head refl, ground arith)

pub Spans-iff : (files : List ScannedFile) → (spans_multiple_sources files ≡ true) ↔ Spans files
Spans-iff files = (spans→Spans files, Spans→spans files)

pub length-select-le :
    (p : ScannedFile → Bool) (files : List ScannedFile) → length (select p files) ≤ length files
length-select-le p [] = omega arith
length-select-le p (f ∷ files) = ground (arith, length-select-le p files)

pub values_for-key :
    (key : ScannedFile → ℕ) (k : ℕ) (files : List ScannedFile)
    → values_for k (map (λ f. (key f, f)) files) ≡ select (λ f. key f == k) files
values_for-key key k [] = refl
values_for-key key k (f ∷ files) = ground (arith, values_for-key key k files)

-- the group of the files that share a size and an mtime
abbrev pub mtime_class : List ScannedFile → ℕ → ℕ → DupGroup
mtime_class candidates size mtime = record {
  size = size;
  hash = [];
  files = select (λ f. f.mod_time == mtime) candidates;
}

-- The group has two files or more, and of two roots if that is asked for.
abbrev pub IsWanted : Bool → List ScannedFile → Type 0
IsWanted two_dir files = (2 ≤ length files) × (two_dir ≡ true → Spans files)

pub is_candidate_iff :
    (two_dir : Bool) (files : List ScannedFile)
    → (is_candidate two_dir files ≡ true) ↔ IsWanted two_dir files
unfolding is_candidate
is_candidate_iff two_dir files = (
  λ h. (ground arith, λ t. (Spans-iff files).0 (ground arith)),
  λ (two, spans). elim (Bool-cases two_dir) [
    | inl t ↦ let s = (Spans-iff files).1 (spans t) in ground arith
    | inr t ↦ ground arith
  ],
)

-- What one size contributes: its classes of one mtime that are wanted.
module _ (order : Order) (two_dir : Bool) (size : ℕ) (candidates : List ScannedFile) where
  pub mtime_groups_sound :
      (g : DupGroup)
      → Memᴰ g (mtime_groups order two_dir (size, candidates))
      → (mtime : ℕ) × (g ≡ mtime_class candidates size mtime) × IsWanted two_dir g.files
  unfolding mtime_groups group_by_mtime
  mtime_groups_sound g m = elim (Bool-cases (two_dir && not (spans_multiple_sources candidates))) [
    | inl e ↦ elim (rw e at m) [ ]
    | inr e ↦
        let (n, w) =
          mem-select (λ h. is_candidate two_dir h.files) (group_by_mtime order candidates size)
            (rw e at m) in
        let (entry, k, q) =
          mem-map_inv _ (order.visit _ (group (map (λ f. (f.mod_time, f)) candidates))) n in
        let (t, vs) = entry in
        let same : vs ≡ select (λ f. f.mod_time == t) candidates =
          group-entry t vs (map (λ f. (f.mod_time, f)) candidates)
            (mem_of_perm (order.visit-perm _ _) k)
          ∙ values_for-key (λ f. f.mod_time) t candidates in
        (t, ground arith, (is_candidate_iff two_dir g.files).0 w)
  ]

  Spans-wider :
      (p : ScannedFile → Bool) (files : List ScannedFile) → Spans (select p files) → Spans files
  Spans-wider p files (f, g, m, n, h) =
      (f, g, (mem-select p files m).0, (mem-select p files n).0, h)

  pub mtime_groups_complete :
      (mtime : ℕ)
      → IsWanted two_dir (mtime_class candidates size mtime).files
      → Memᴰ (mtime_class candidates size mtime) (mtime_groups order two_dir (size, candidates))
  unfolding mtime_groups group_by_mtime
  mtime_groups_complete mtime w =
      let files = select (λ f. f.mod_time == mtime) candidates in
      let pairs = map {B = ℕ × ScannedFile} (λ f. (f.mod_time, f)) candidates in
      let q = values_for-key (λ f. f.mod_time) mtime candidates in
      let entry : Memᴰ (mtime, files) (group pairs) = rw q at (
        group-entry_of mtime pairs
          (λ z. let len = ap length (sym q ∙ z) in absurd (omega arith))) in
      let seen = mem_of_perm (perm-sym (order.visit-perm _ (group pairs))) entry in
      let listed : Memᴰ (mtime_class candidates size mtime) (group_by_mtime order candidates size) =
        mem-map (λ (e : ℕ × List ScannedFile). record { size = size; hash = []; files = e.1 }) _
          seen in
      let wide : (two_dir && not (spans_multiple_sources candidates)) ≡ false =
        elim (Bool-cases two_dir) [
          | inl t ↦
              let s =
                (Spans-iff candidates).1
                  (Spans-wider (λ f. f.mod_time == mtime) candidates (w.1 t)) in
              ground arith
          | inr t ↦ ground arith
        ] in
      rw wide (
        mem-select_of (λ g. is_candidate two_dir g.files) _ listed
          ((is_candidate_iff two_dir files).1 w))
