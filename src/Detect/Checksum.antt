-- ===== src/Detect/Checksum.antt =====
-- The content pass of one size: its groups are the classes of files of one hash. A file that could
-- not be read is in none.
use dup_detector.Prelude.{
  ℕ, ◌≡◌, refl, sym, ap, ◌∙◌, ◌↔◌, inl, inr, ◌&&◌, Bool, false, not, Option, none, some, List, [],
  ◌∷◌, Memᴰ, arith, length, select, mem-select, mem-select_of, text_eq, list_eq, Option-cases,
  Order, mem_of_perm, perm-sym, mem-map, mem-map_inv,
}
use dup_detector.Prelude.Grouping.{group, values_for, group-entry, group-entry_of}
use dup_detector.Text.{Text}
use dup_detector.Files.{ScannedFile, DupGroup}
use dup_detector.Detect.{is_candidate, hash_pairs, checksum_group}
use dup_detector.Detect.Mtime.{IsWanted, is_candidate_iff}

-- The file was read and has this hash.
abbrev pub has_hash : (ScannedFile → Option Text) → Text → ScannedFile → Bool
has_hash hash h f = elim (hash f) [ none ↦ false | some k ↦ not (list_eq k []) && list_eq k h ]

module _ (order : Order) (hash : ScannedFile → Option Text) where
  values_for-hash :
      (h : Text) (files : List ScannedFile)
      → values_for h (hash_pairs order hash files) ≡ select (has_hash hash h) files
  unfolding hash_pairs
  values_for-hash h [] = refl
  values_for-hash h (f ∷ files) = elim (Option-cases (hash f)) [
    | inl n ↦ ground (arith, n, values_for-hash h files)
    | inr (k, s) ↦ ground (arith, s, values_for-hash h files)
  ]

  -- The group of a size and a hash.
  abbrev pub hash_class : List ScannedFile → ℕ → Text → DupGroup
  hash_class candidates size h = record {
    size = size;
    hash = h;
    files = select (has_hash hash h) candidates;
  }

  -- The groups of one size are the classes of candidates that could be read and have one hash, with
  -- two files or more, and of two roots if that is asked for.
  pub checksum_group_iff :
      (candidates : List ScannedFile) (size : ℕ) (two_dir : Bool) (g : DupGroup)
      → Memᴰ g (checksum_group order hash candidates size two_dir)
        ↔ ((h : Text) × (g ≡ hash_class candidates size h) × IsWanted two_dir g.files)
  unfolding checksum_group
  checksum_group_iff candidates size two_dir g =
      let pairs = hash_pairs order hash candidates in
      (
        λ m.
            let (entry, n, e) = mem-map_inv _ _ m in
            let (h, vs) = entry in
            let (k, w) =
              mem-select (λ e. is_candidate two_dir e.1) (order.visit _ (group pairs)) n in
            let same : vs ≡ select (has_hash hash h) candidates =
              group-entry h vs pairs (mem_of_perm (order.visit-perm _ _) k)
              ∙ values_for-hash h candidates in
            (h, ground arith, rw e ((is_candidate_iff two_dir vs).0 w)),
        λ (h, e, w).
            let files = select (has_hash hash h) candidates in
            let w' = rw e at w in
            let q = values_for-hash h candidates in
            let entry : Memᴰ (h, files) (group pairs) = rw q at (
              group-entry_of h pairs
                (λ z. let len = ap length (sym q ∙ z) in absurd (omega arith))) in
            let seen = mem_of_perm (perm-sym (order.visit-perm _ (group pairs))) entry in
            let kept =
              mem-select_of (λ (e : Text × List ScannedFile). is_candidate two_dir e.1) _ seen
                ((is_candidate_iff two_dir files).1 w') in
            rw e (
              mem-map
                (λ (e : Text × List ScannedFile). record { size = size; hash = e.0; files = e.1 }) _
                kept),
      )
