-- ===== src/Scan/Hardlinks.antt =====
-- What a scan (scan.go) hands on, and the names of one inode that several scans meet.
use dup_detector.Prelude.{
  ℕ, ◌≡◌, sym, ap, ◌∙◌, inl, inr, true, Option, List, Memᴰ, arith, mem-has, Distinct,
  mem-append_left, mem-append_right, nat_eq, pair_eq,
}
use dup_detector.Prelude.Runs.{done}
use dup_detector.Text.{Text}
use dup_detector.Files.{ScannedFile, ScanConfig}
use dup_detector.Scan.{
  Key, FileInfo, Entry, Forest, Root, Walk, child_path, in_bounds, verdict, file_of, visit_file,
  scan,
}
use dup_detector.Scan.Reach.{Reaches, first, later, inside}
use dup_detector.Scan.Steps.{
  as_list, listing, listing-later, listing-file, listing-enters, walk_of, listed, scan-listed,
}
use dup_detector.Scan.Visits.{
  IsCandidate, IsShared, IsSingle, remember-Remembered, visit_file-candidate, single_not_shared,
  known_remembers, known_complete,
}
use dup_detector.Scan.Listed.{as_list-keys, listing_keeps, listing-Distinct, listing_sound, IsFrom}

module _ (rel : Text → Text → Option Text) (w : Walk) where
  listing_complete :
      {parent path : Text} {forest : Forest} {e : Entry} (seen : List Key) (r : Text) (i : FileInfo)
      → Reaches rel w parent forest path e
      → IsCandidate rel w path e r i
      → in_bounds w.cfg i.size ≡ true
      → IsSingle i
      → (n : ℕ) × Memᴰ (file_of path r i n) (listing rel w parent forest seen).0
  listing_complete seen r i (first {parent = parent} {e = e} {below = below} {rest = rest}) c b s =
      let path = child_path parent e.name in
      elim (known_complete rel w path r i seen (remember-Remembered i seen) b) [
        | inr (k, t, m) ↦ absurd (single_not_shared i s t)
        | inl (n, m) ↦
            let visited = as_list (visit_file w path e (verdict rel w path) seen) in
            let added : Memᴰ (file_of path r i n) visited.0 =
              rw (visit_file-candidate rel w path e r i seen c) m in
            (
              n,
              rw (listing-file rel w parent e below rest seen c.plain)
                  (mem-append_left visited.0 (listing rel w parent rest visited.1).0 added),
            )
      ]
  listing_complete seen r i (later {parent = parent} {e = e} {below = below} {rest = rest} t) c b
        s =
      let (x, q) = listing-later rel w parent e below rest seen in
      let (n, m) = listing_complete x.1 r i t c b s in (n, rw q (mem-append_right _ _ m))
  listing_complete seen r i (inside {parent = parent} {e = e} {below = below} {rest = rest} d en t)
        c b s =
      let (n, m) = listing_complete seen r i t c b s in
      (n, rw (listing-enters rel w parent e below rest seen d en) (mem-append_left _ _ m))

  listing_remembers :
      {parent path : Text} {forest : Forest} {e : Entry} (seen : List Key) (r : Text) (i : FileInfo)
      {k : Key}
      → Reaches rel w parent forest path e
      → IsCandidate rel w path e r i
      → IsShared i k
      → Memᴰ k (listing rel w parent forest seen).1
  listing_remembers seen r i {k = k} (first {parent = parent} {e = e} {below = below} {rest = rest})
        c s =
      let path = child_path parent e.name in
      let m = known_remembers rel w path r i seen (remember-Remembered i seen) s in
      let added : Memᴰ k (visit_file w path e (verdict rel w path) seen).1 =
        rw (visit_file-candidate rel w path e r i seen c) m in
      rw (listing-file rel w parent e below rest seen c.plain, as_list-keys)
        (listing_keeps rel w parent rest _ added)
  listing_remembers seen r i (later {parent = parent} {e = e} {below = below} {rest = rest} t) c s =
      let (x, q) = listing-later rel w parent e below rest seen in
      rw q (listing_remembers x.1 r i t c s)
  listing_remembers seen r i (inside {parent = parent} {e = e} {below = below} {rest = rest} d en t)
        c s =
      rw (listing-enters rel w parent e below rest seen d en)
        (listing_keeps rel w parent rest _ (listing_remembers seen r i t c s))

done-inj : {A : Type 0} {a b : A} → done a ≡ done b → a ≡ b
done-inj e = ground arith

module _ (rel : Text → Text → Option Text) (cfg : ScanConfig) (abs_excludes : List Text)
    (root : Root) where
  scan-eq :
      (seen seen' : List Key) (files : List ScannedFile)
      → scan rel cfg abs_excludes root seen ≡ done (seen', files)
      → ((listed rel cfg abs_excludes root seen).1 ≡ seen')
        × ((listed rel cfg abs_excludes root seen).0 ≡ files)
  scan-eq seen seen' files h =
      let e = done-inj (sym (scan-listed rel cfg abs_excludes root seen) ∙ h) in
      (ap (λ x. x.0) e, ap (λ x. x.1) e)

  -- Every file that a scan returns is that of a regular file, no sidecar, which the walk comes to and
  -- no rule or exclude leaves out, with a size within the bounds; and if its inode has several names,
  -- none of them was met before the scan.
  pub scan-IsFrom :
      (seen seen' : List Key) (files : List ScannedFile) (f : ScannedFile)
      → scan rel cfg abs_excludes root seen ≡ done (seen', files)
      → Memᴰ f files
      → IsFrom rel (walk_of cfg abs_excludes root) root.path root.below seen f
  scan-IsFrom seen seen' files f h m =
      let (ks, fs) = scan-eq seen seen' files h in
      listing_sound rel (walk_of cfg abs_excludes root) root.path root.below seen (rw (← fs) at m)

  -- A scan returns every regular file, no sidecar, that the walk comes to and no rule or exclude leaves
  -- out, if its size is within the bounds and its inode has no other name.
  pub scan_complete :
      (seen seen' : List Key) (files : List ScannedFile) (path r : Text) (e : Entry) (i : FileInfo)
      → scan rel cfg abs_excludes root seen ≡ done (seen', files)
      → Reaches rel (walk_of cfg abs_excludes root) root.path root.below path e
      → IsCandidate rel (walk_of cfg abs_excludes root) path e r i
      → in_bounds cfg i.size ≡ true
      → IsSingle i
      → (n : ℕ) × Memᴰ (file_of path r i n) files
  scan_complete seen seen' files path r e i h t c b s =
      let (ks, fs) = scan-eq seen seen' files h in
      let (n, m) = listing_complete rel (walk_of cfg abs_excludes root) seen r i t c b s in
      (n, rw fs at m)

  -- A scan keeps the keys distinct and forgets none.
  pub scan-Distinct :
      (seen seen' : List Key) (files : List ScannedFile)
      → Distinct seen
      → scan rel cfg abs_excludes root seen ≡ done (seen', files)
      → Distinct seen' × ((k : Key) → Memᴰ k seen → Memᴰ k seen')
  scan-Distinct seen seen' files d h =
      let (ks, fs) = scan-eq seen seen' files h in
      let w = walk_of cfg abs_excludes root in
      (
        rw ks at (listing-Distinct rel w root.path root.below seen d),
        λ k m. rw ks at (listing_keeps rel w root.path root.below seen m),
      )

-- Where a second scan starts from the keys of a first, no file that it returns has an inode of
-- several names that the first has met on a regular file, no sidecar, that was not left out.
pub scan_again :
    (rel : Text → Text → Option Text) (cfg cfg' : ScanConfig) (excludes excludes' : List Text)
    (root root' : Root) (seen seen' seen'' : List Key) (files files' : List ScannedFile)
    (path r : Text) (e : Entry) (i : FileInfo) (k : Key) (f : ScannedFile)
    → scan rel cfg excludes root seen ≡ done (seen', files)
    → scan rel cfg' excludes' root' seen' ≡ done (seen'', files')
    → Reaches rel (walk_of cfg excludes root) root.path root.below path e
    → IsCandidate rel (walk_of cfg excludes root) path e r i
    → IsShared i k
    → Memᴰ f files'
    → (o : IsFrom rel (walk_of cfg' excludes' root') root'.path root'.below seen' f) × ¬ IsShared
        o.info k
scan_again rel cfg cfg' excludes excludes' root root' seen seen' seen'' files files' path r e i k f
      h h' t c s m =
    let (ks, fs) = scan-eq rel cfg excludes root seen seen' files h in
    let o = scan-IsFrom rel cfg' excludes' root' seen' seen'' files' f h' m in
    let met = rw ks at (listing_remembers rel (walk_of cfg excludes root) seen r i t c s) in
    (o, λ shared. let z = mem-has k seen' met in let y = o.fresh k shared in ground (arith, z, y))
