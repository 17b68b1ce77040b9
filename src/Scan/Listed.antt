-- ===== src/Scan/Listed.antt =====
-- Which files a scan (scan.go) hands on, and which keys it keeps.
use dup_detector.Prelude.{
  ℕ, ◌≡◌, refl, inl, inr, true, false, Option, none, some, List, Memᴰ, arith, has, mem-has, has-mem,
  Distinct, Bool-cases, mem-append_cases, nat_eq, pair_eq,
}
use dup_detector.Text.{Text}
use dup_detector.Files.{ScannedFile}
use dup_detector.Scan.{
  Key, FileInfo, Entry, Forest, empty, entry, Walk, child_path, remember, in_bounds, verdict,
  enters, file_of, visit_file,
}
use dup_detector.Scan.Reach.{Reaches, first, later, inside}
use dup_detector.Scan.Steps.{
  as_list, listing, listing-empty, listing-file, listing-enters, listing-skips,
}
use dup_detector.Scan.Visits.{
  IsCandidate, IsShared, visit_known, remember-Remembered, visit_file-candidate, visit_file-cases,
  known_keeps, known-Distinct, known_sound,
}

not_among :
    (k : Key) (seen seen' : List Key)
    → (Memᴰ k seen' → Memᴰ k seen)
    → has k seen ≡ false
    → has k seen' ≡ false
not_among k seen seen' fewer h = elim (Bool-cases (has k seen')) [
  | inr a ↦ a
  | inl a ↦ absurd (let z = mem-has k seen (fewer (has-mem k seen' a)) in ground (arith, z, h))
]

module _ (rel : Text → Text → Option Text) (w : Walk) where
  pub as_list-keys : (x : Option ScannedFile × List Key) → (as_list x).1 ≡ x.1
  unfolding as_list
  as_list-keys (none, seen) = refl
  as_list-keys (some f, seen) = refl

  pub visit_keeps :
      (path : Text) (e : Entry) (seen : List Key) {k : Key}
      → e.is_dir ≡ false
      → Memᴰ k seen
      → Memᴰ k (visit_file w path e (verdict rel w path) seen).1
  visit_keeps path e seen d m =
      elim (visit_file-cases rel w path e (verdict rel w path) seen d refl) [
        | inl q ↦ rw q m
        | inr (r, i, c) ↦
            rw (visit_file-candidate rel w path e r i seen c)
              (known_keeps rel w path r i seen (remember-Remembered i seen) m)
      ]

  visit-Distinct :
      (path : Text) (e : Entry) (seen : List Key)
      → e.is_dir ≡ false
      → Distinct seen
      → Distinct (visit_file w path e (verdict rel w path) seen).1
  visit-Distinct path e seen d m =
      elim (visit_file-cases rel w path e (verdict rel w path) seen d refl) [
        | inl q ↦ rw q m
        | inr (r, i, c) ↦
            rw (visit_file-candidate rel w path e r i seen c)
              (known-Distinct rel w path r i seen (remember-Remembered i seen) m)
      ]

  pub listing_keeps :
      (parent : Text) (forest : Forest) (seen : List Key) {k : Key}
      → Memᴰ k seen
      → Memᴰ k (listing rel w parent forest seen).1
  listing_keeps parent empty seen m = rw (listing-empty rel w parent seen) m
  listing_keeps parent (entry e below rest) seen m =
      let path = child_path parent e.name in
      elim (Bool-cases e.is_dir) [
        | inr a ↦
            rw (listing-file rel w parent e below rest seen a, as_list-keys)
              (listing_keeps parent rest _ (visit_keeps path e seen a m))
        | inl a ↦ elim (Bool-cases (enters w e (verdict rel w path))) [
          | inl b ↦
              rw (listing-enters rel w parent e below rest seen a b)
                (listing_keeps parent rest _ (listing_keeps path below seen m))
          | inr b ↦
              rw (listing-skips rel w parent e below rest seen a b)
                (listing_keeps parent rest seen m)
        ]
      ]

  pub listing-Distinct :
      (parent : Text) (forest : Forest) (seen : List Key)
      → Distinct seen
      → Distinct (listing rel w parent forest seen).1
  listing-Distinct parent empty seen m = rw (listing-empty rel w parent seen) m
  listing-Distinct parent (entry e below rest) seen m =
      let path = child_path parent e.name in
      elim (Bool-cases e.is_dir) [
        | inr a ↦
            rw (listing-file rel w parent e below rest seen a, as_list-keys)
              (listing-Distinct parent rest _ (visit-Distinct path e seen a m))
        | inl a ↦ elim (Bool-cases (enters w e (verdict rel w path))) [
          | inl b ↦
              rw (listing-enters rel w parent e below rest seen a b)
                (listing-Distinct parent rest _ (listing-Distinct path below seen m))
          | inr b ↦
              rw (listing-skips rel w parent e below rest seen a b)
                (listing-Distinct parent rest seen m)
        ]
      ]

  -- Where a file that is handed on comes from: a candidate that the walk comes to, within the bounds,
  -- and where its inode is shared, with a key that was not there at the start.
  pub record IsFrom (parent : Text) (forest : Forest) (seen : List Key) (f : ScannedFile)
      : Type 0 where
    pub path : Text
    pub entry : Entry
    pub rel_path : Text
    pub info : FileInfo
    pub inode : ℕ
    pub reached : Reaches rel w parent forest path entry
    pub candidate : IsCandidate rel w path entry rel_path info
    pub bounded : in_bounds w.cfg info.size ≡ true
    pub same : f ≡ file_of path rel_path info inode
    pub fresh : (k : Key) → IsShared info k → has k seen ≡ false

  visit_sound :
      (parent : Text) (e : Entry) (below rest : Forest) (seen : List Key) {f : ScannedFile}
      → e.is_dir ≡ false
      → Memᴰ f
          (as_list (
            visit_file w
              (child_path parent e.name)
              e
              (verdict rel w (child_path parent e.name))
              seen)).0
      → IsFrom parent (entry e below rest) seen f
  unfolding as_list
  visit_sound parent e below rest seen d m =
      let path = child_path parent e.name in
      elim (visit_file-cases rel w path e (verdict rel w path) seen d refl) [
        | inl q ↦ elim (rw q at m) [ ]
        | inr (r, i, c) ↦
            let at : Memᴰ _ (as_list (visit_known w path r i (remember i seen) seen)).0 =
              rw (visit_file-candidate rel w path e r i seen c) at m in
            let (b, (n, s), new) =
              known_sound rel w path r i seen (remember-Remembered i seen) at in
            record {
              path = path;
              entry = e;
              rel_path = r;
              info = i;
              inode = n;
              reached = first;
              candidate = c;
              bounded = b;
              same = s;
              fresh = new;
            }
      ]

  -- What comes from later entries, or from below, comes from all of them.
  IsFrom-along :
      {parent parent' : Text} {forest forest' : Forest} {seen seen' : List Key} {f : ScannedFile}
      → ((path : Text) (e : Entry)
          → Reaches rel w parent forest path e
          → Reaches rel w parent' forest' path e)
      → ((k : Key) → Memᴰ k seen' → Memᴰ k seen)
      → IsFrom parent forest seen f
      → IsFrom parent' forest' seen' f
  IsFrom-along wider fewer o = record {
    path = o.path;
    entry = o.entry;
    rel_path = o.rel_path;
    info = o.info;
    inode = o.inode;
    reached = wider _ _ o.reached;
    candidate = o.candidate;
    bounded = o.bounded;
    same = o.same;
    fresh = λ k s. not_among k _ _ (fewer k) (o.fresh k s);
  }

  pub listing_sound :
      (parent : Text) (forest : Forest) (seen : List Key) {f : ScannedFile}
      → Memᴰ f (listing rel w parent forest seen).0
      → IsFrom parent forest seen f
  listing_sound parent empty seen m = elim (rw (listing-empty rel w parent seen) at m) [ ]
  listing_sound parent (entry e below rest) seen m =
      let path = child_path parent e.name in
      elim (Bool-cases e.is_dir) [
        | inr a ↦
            elim (mem-append_cases _ _ (rw (listing-file rel w parent e below rest seen a) at m)) [
              | inl h ↦ visit_sound parent e below rest seen a h
              | inr t ↦
                  IsFrom-along (λ path x. later)
                    (λ k h. rw as_list-keys (visit_keeps path e seen a h))
                    (listing_sound parent rest _ t)
            ]
        | inl a ↦ elim (Bool-cases (enters w e (verdict rel w path))) [
          | inl b ↦
              elim (mem-append_cases _ _
                (rw (listing-enters rel w parent e below rest seen a b) at m)) [
                  | inl h ↦
                      IsFrom-along (λ path x. inside a b) (λ k h. h)
                        (listing_sound path below seen h)
                  | inr t ↦
                      IsFrom-along (λ path x. later) (λ k h. listing_keeps path below seen h)
                        (listing_sound parent rest _ t)
                ]
          | inr b ↦
              IsFrom-along (λ path x. later) (λ k h. h)
                (listing_sound parent rest seen
                  (rw (listing-skips rel w parent e below rest seen a b) at m))
        ]
      ]
