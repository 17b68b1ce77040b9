-- ===== src/Scan/Steps.antt =====
-- The walk of scan.go as a list: the files that it hands on, in their order, do not depend on what is
-- done with them.
use dup_detector.Prelude.{
  ◌≡◌, refl, sym, ap, ◌∙◌, inl, inr, Bool, true, false, Option, none, some, List, [], ◌∷◌, ◌++◌,
  map, if◌then◌else◌, Bool-cases,
}
use mathlib.Core.List.{append_assoc, append-nil}
use dup_detector.Prelude.Runs.{Run, done, ◌>>=◌, >>=-assoc, >>=-ext}
use dup_detector.Text.{Text}
use dup_detector.Text.Paths.{clean}
use dup_detector.Files.{ScannedFile, ScanConfig}
use dup_detector.Scan.{
  Key, Entry, Forest, empty, entry, Root, Walk, child_path, verdict, enters, visit_file, hand_on,
  walk_dir, scan_walk, scan,
}

if_true : {A : Type 0} {b : Bool} (x y : A) → b ≡ true → (if b then x else y) ≡ x
if_true x y e = rw e refl

if_false : {A : Type 0} {b : Bool} (x y : A) → b ≡ false → (if b then x else y) ≡ y
if_false x y e = rw e refl

-- each file in turn, up to the first failure
unfoldable pub emit_all : {S : Type 0} → (ScannedFile → S → Run S) → List ScannedFile → S → Run S
emit_all emit [] s = done s
emit_all emit (f ∷ files) s = emit f s >>= emit_all emit files

emit_all-append :
    {S : Type 0} (emit : ScannedFile → S → Run S) (files later : List ScannedFile) (s : S)
    → emit_all emit (files ++ later) s ≡ (emit_all emit files s >>= emit_all emit later)
unfolding emit_all
emit_all-append emit [] later s = refl
emit_all-append emit (f ∷ files) later s =
    >>=-ext (emit f s) (emit_all-append emit files later)
    ∙ sym (>>=-assoc (emit f s) (emit_all emit files) (emit_all emit later))

unfoldable pub as_list : Option ScannedFile × List Key → List ScannedFile × List Key
as_list (none, seen) = ([], seen)
as_list (some f, seen) = (f ∷ [], seen)

module _ (rel : Text → Text → Option Text) (w : Walk) where
  -- the files of a directory's entries and the keys seen after them
  unfoldable pub listing : Text → Forest → List Key → List ScannedFile × List Key
  unfolding as_list
  listing parent empty seen = ([], seen)
  listing parent (entry e below rest) seen =
      let path = child_path parent e.name in
      let v = verdict rel w path in
      let inside = listing path below seen in
      let (here, seen') =
        if e.is_dir
        then if enters w e v then inside else ([], seen)
        else as_list (visit_file w path e v seen) in
      let (later, seen'') = listing parent rest seen' in (here ++ later, seen'')

  -- what comes first, and then the entries that are left
  abbrev pub with_later : Text → Forest → List ScannedFile × List Key → List ScannedFile × List Key
  with_later parent rest (here, seen) =
      let (later, seen') = listing parent rest seen in (here ++ later, seen')

  pub listing-empty : (parent : Text) (seen : List Key) → listing parent empty seen ≡ ([], seen)
  unfolding listing
  listing-empty parent seen = refl

  module _ (parent : Text) (e : Entry) (below rest : Forest) (seen : List Key) where
    listing-entry :
        listing parent (entry e below rest) seen
        ≡ with_later parent rest (
            if e.is_dir
            then if enters w e (verdict rel w (child_path parent e.name))
              then listing (child_path parent e.name) below seen
              else ([], seen)
            else as_list (
                visit_file w
                  (child_path parent e.name)
                  e
                  (verdict rel w (child_path parent e.name))
                  seen))
    unfolding listing
    listing-entry = refl

    pub listing-later :
        (x : List ScannedFile × List Key) × (listing parent (entry e below rest) seen
          ≡ with_later parent rest x)
    listing-later = (_, listing-entry)

    pub listing-file :
        e.is_dir ≡ false
        → listing parent (entry e below rest) seen
          ≡ with_later parent rest (
              as_list (
                visit_file w
                  (child_path parent e.name)
                  e
                  (verdict rel w (child_path parent e.name))
                  seen))
    listing-file a = listing-entry ∙ ap (with_later parent rest) (if_false _ _ a)

    pub listing-enters :
        e.is_dir ≡ true
        → enters w e (verdict rel w (child_path parent e.name)) ≡ true
        → listing parent (entry e below rest) seen
          ≡ with_later parent rest (listing (child_path parent e.name) below seen)
    listing-enters a b = listing-entry ∙ ap (with_later parent rest) (if_true _ _ a ∙ if_true _ _ b)

    pub listing-skips :
        e.is_dir ≡ true
        → enters w e (verdict rel w (child_path parent e.name)) ≡ false
        → listing parent (entry e below rest) seen ≡ listing parent rest seen
    listing-skips a b = listing-entry ∙ ap (with_later parent rest) (if_true _ _ a ∙ if_false _ _ b)

  module _ {S : Type 0} (emit : ScannedFile → S → Run S) where
    -- what the walk is, where the files and the keys are these
    abbrev pub outcome : List ScannedFile × List Key → S → Run (List Key × S)
    outcome (files, seen) s = emit_all emit files s >>= λ s'. done (seen, s')

    hand_on-outcome :
        (found : Option ScannedFile × List Key) (s : S)
        → hand_on emit found s ≡ outcome (as_list found) s
    unfolding hand_on as_list emit_all
    hand_on-outcome (none, seen) s = refl
    hand_on-outcome (some f, seen) s = sym (>>=-assoc (emit f s) done (λ s'. done (seen, s')))

    then_later :
        (here : List ScannedFile × List Key) (s : S) {first : Run (List Key × S)}
        (next : List Key → List ScannedFile × List Key) (walk : List Key × S → Run (List Key × S))
        → first ≡ outcome here s
        → ((seen : List Key) (s' : S) → walk (seen, s') ≡ outcome (next seen) s')
        → (first >>= walk) ≡ outcome (here.0 ++ (next here.1).0, (next here.1).1) s
    then_later (files, seen) s next walk e step =
        ap (λ r. r >>= walk) e
        ∙ >>=-assoc (emit_all emit files s) (λ s'. done (seen, s')) walk
        ∙ >>=-ext (emit_all emit files s) (step seen)
        ∙ sym (
            >>=-assoc (emit_all emit files s) (emit_all emit (next seen).0)
              (λ s'. done ((next seen).1, s')))
        ∙ ap (λ r. r >>= λ s'. done ((next seen).1, s'))
            (sym (emit_all-append emit files (next seen).0 s))

    walk_dir-outcome :
        (parent : Text) (forest : Forest) (seen : List Key) (s : S)
        → walk_dir emit rel w parent forest (seen, s) ≡ outcome (listing parent forest seen) s
    unfolding walk_dir listing emit_all
    walk_dir-outcome parent empty seen s = refl
    walk_dir-outcome parent (entry e below rest) seen s =
        let later = listing parent rest in
        let walk = walk_dir emit rel w parent rest in
        let path = child_path parent e.name in
        let v = verdict rel w path in
        elim (Bool-cases e.is_dir) [
          | inr a ↦ rw a (
              then_later (as_list (visit_file w path e v seen)) s later walk (hand_on-outcome _ s)
                (walk_dir-outcome parent rest))
          | inl a ↦ elim (Bool-cases (enters w e v)) [
            | inl b ↦
                rw (a, b)
                  (then_later (listing path below seen) s later walk
                    (walk_dir-outcome path below seen s) (walk_dir-outcome parent rest))
            | inr b ↦ rw (a, b) (walk_dir-outcome parent rest seen s)
          ]
        ]

abbrev pub walk_of : ScanConfig → List Text → Root → Walk
walk_of cfg abs_excludes root = record {
  root = root.path;
  cfg = cfg;
  excludes = map clean abs_excludes;
  device = if cfg.one_file_system then elim root.key [ none ↦ none | some k ↦ some k.0 ] else none;
}

module _ (rel : Text → Text → Option Text) (cfg : ScanConfig) (abs_excludes : List Text)
    (root : Root) where
  -- the listing of a whole root
  abbrev pub listed : List Key → List ScannedFile × List Key
  listed seen = listing rel (walk_of cfg abs_excludes root) root.path root.below seen

  scan_walk-outcome :
      {S : Type 0} (emit : ScannedFile → S → Run S) (seen : List Key) (s : S)
      → scan_walk emit rel cfg abs_excludes root (seen, s)
        ≡ (emit_all emit (listed seen).0 s >>= λ s'. done ((listed seen).1, s'))
  unfolding scan_walk
  scan_walk-outcome emit seen s =
      walk_dir-outcome rel (walk_of cfg abs_excludes root) emit root.path root.below seen s

  emit_all-collect :
      (files out : List ScannedFile)
      → emit_all (λ f fs. done (fs ++ f ∷ [])) files out ≡ done (out ++ files)
  unfolding emit_all
  emit_all-collect [] out = ap done (sym (append-nil out))
  emit_all-collect (f ∷ files) out =
      emit_all-collect files (out ++ f ∷ []) ∙ ap done (append_assoc out (f ∷ []) files)

  pub scan-listed :
      (seen : List Key)
      → scan rel cfg abs_excludes root seen ≡ done ((listed seen).1, (listed seen).0)
  unfolding scan
  scan-listed seen =
      scan_walk-outcome (λ f fs. done (fs ++ f ∷ [])) seen []
      ∙ ap (λ r. r >>= λ s'. done ((listed seen).1, s')) (emit_all-collect (listed seen).0 [])

  -- Whatever is done with each file, a walk does it to the files that Scan returns, in their order and
  -- up to the first failure, and ends with the keys that Scan ends with. Scan itself never fails.
  pub scan_walk-scan :
      {S : Type 0} (emit : ScannedFile → S → Run S) (seen : List Key) (s : S)
      → (seen' : List Key) × (files : List ScannedFile) × (scan rel cfg abs_excludes root seen
          ≡ done (seen', files))
        × (scan_walk emit rel cfg abs_excludes root (seen, s)
            ≡ (emit_all emit files s >>= λ s'. done (seen', s')))
  scan_walk-scan emit seen s =
      ((listed seen).1, (listed seen).0, scan-listed seen, scan_walk-outcome emit seen s)
