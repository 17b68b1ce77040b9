-- ===== src/Detect/Reports.antt =====
-- MtimeDups of detect.go and MtimeDupsStore of store_detect.go report the same groups.
use dup_detector.Prelude.{
  flat_map, Bool-cases, inl, inr, refl, true, [], ◌∷◌, mem-flat_map, mem-flat_map_inv, ℕ, ◌≤◌, ◌≡◌,
  sym, ap, ◌∙◌, ◌↔◌, Bool, not, List, ◌++◌, map, Memᴰ, arith, ltb, ◌==◌, length, select, mem-select,
  mem-select_of, nat_eq, Order, mem_of_perm, perm-sym, mem-map, mem-sort, mem-sort_of, larger_first,
  IsDescending, sort-IsDescending,
}
use dup_detector.Prelude.Runs.{done, >>=-eq-done, done_inj}
use dup_detector.Prelude.Grouping.{group, group-entry, group-entry_of}
use dup_detector.Files.{ScannedFile, DupGroup, signed_rank}
use dup_detector.Detect.{
  with_source, group_by_size, mtime_groups, largest_first, mtime_dups, files_with_size,
  collision_sizes, mtime_dups_store, mtime_loop, SizeQueries,
}
use dup_detector.Detect.Mtime.{
  mtime_class, IsWanted, mtime_groups_sound, mtime_groups_complete, length-select-le,
  values_for-key,
}

-- The entries of the map by size: each size of two files or more, with its files.
size_entry :
    (files cands : List ScannedFile) (size : ℕ)
    → Memᴰ (size, cands) (group_by_size files)
    → cands ≡ files_with_size files size
unfolding group_by_size files_with_size
size_entry files cands size m =
    group-entry size cands (map (λ f. (f.size, f)) files)
      (mem-select (λ e. not (ltb (length e.1) 2)) _ m).0
    ∙ values_for-key (λ f. f.size) size files

size_entry_of :
    (files : List ScannedFile) (size : ℕ)
    → 2 ≤ length (files_with_size files size)
    → Memᴰ (size, files_with_size files size) (group_by_size files)
unfolding group_by_size files_with_size
size_entry_of files size two =
    let pairs = map {B = ℕ × ScannedFile} (λ f. (f.size, f)) files in
    let q = values_for-key (λ f. f.size) size files in
    let entry : Memᴰ (size, select (λ f. f.size == size) files) (group pairs) =
      rw q at (
        group-entry_of size pairs (λ z. let len = ap length (sym q ∙ z) in absurd (omega arith))) in
    mem-select_of (λ e. not (ltb (length e.1) 2)) _ entry (ground arith)

-- A report is the class of the files of one size and one mtime, with two files or more, and of two
-- roots if that is asked for.
abbrev pub IsReport : Bool → List ScannedFile → DupGroup → Type 0
IsReport two_dir files g =
    (size : ℕ) × (mtime : ℕ) × (g ≡ mtime_class (files_with_size files size) size mtime)
    × IsWanted two_dir g.files

enough :
    (files : List ScannedFile) (size mtime : ℕ)
    → 2 ≤ length (mtime_class (files_with_size files size) size mtime).files
    → 2 ≤ length (files_with_size files size)
enough files size mtime h =
    let le = length-select-le (λ f. f.mod_time == mtime) (files_with_size files size) in omega arith

module _ (order : Order) where
  in_largest_first :
      {g : DupGroup} (groups : List DupGroup) → Memᴰ g (largest_first order groups) → Memᴰ g groups
  unfolding largest_first
  in_largest_first groups m = mem_of_perm (order.visit-perm _ _) (mem-sort _ _ m)

  to_largest_first :
      {g : DupGroup} (groups : List DupGroup) → Memᴰ g groups → Memᴰ g (largest_first order groups)
  unfolding largest_first
  to_largest_first groups m = mem-sort_of _ _ (mem_of_perm (perm-sym (order.visit-perm _ _)) m)

  -- The groups that the pass over two lists reports are the classes of files of one size and one
  -- mtime that have two files or more, and files of both lists if the second list is not empty.
  -- They are reported whatever the order in which the maps are visited.
  pub mtime_dups_iff :
      (files_a files_b : List ScannedFile) (g : DupGroup)
      → Memᴰ g (mtime_dups order files_a files_b)
        ↔ IsReport (ltb 0 (length files_b)) (with_source 0 files_a ++ with_source 1 files_b) g
  unfolding mtime_dups
  mtime_dups_iff files_a files_b g =
      let two_dir = ltb 0 (length files_b) in
      let files = with_source 0 files_a ++ with_source 1 files_b in
      (
        λ m.
            let (entry, n, k) = mem-flat_map_inv _ _ (in_largest_first _ m) in
            let (size, cands) = entry in
            let same = size_entry files cands size (mem_of_perm (order.visit-perm _ _) n) in
            let (mtime, e, w) = mtime_groups_sound order two_dir size cands g k in
            (size, mtime, rw (← same) e, w),
        λ (size, mtime, e, w).
            let w' = rw e at w in
            let entry = size_entry_of files size (enough files size mtime w'.0) in
            let k =
              mtime_groups_complete order two_dir size (files_with_size files size) mtime w' in
            rw e (
              to_largest_first _ (
                mem-flat_map (mtime_groups order two_dir) _
                  (mem_of_perm (perm-sym (order.visit-perm _ _)) entry) k)),
      )

module _ (order : Order) where
  -- the groups of the store, largest first
  abbrev pub found_groups : List ScannedFile → Bool → List DupGroup
  found_groups rows two_dir = largest_first order (
      flat_map (λ size. mtime_groups order two_dir (size, files_with_size rows size))
        (collision_sizes rows))

  pub found_groups_iff :
      (rows : List ScannedFile) (two_dir : Bool) (g : DupGroup)
      → Memᴰ g (found_groups rows two_dir) ↔ IsReport two_dir rows g
  unfolding collision_sizes
  found_groups_iff rows two_dir g = (
    λ m.
        let (size, n, k) =
          mem-flat_map_inv (λ size. mtime_groups order two_dir (size, files_with_size rows size))
            (collision_sizes rows) (in_largest_first order _ m) in
        let (mtime, e, w) = mtime_groups_sound order two_dir size (files_with_size rows size) g k in
        (size, mtime, e, w),
    λ (size, mtime, e, w).
        let w' = rw e at w in
        let entry = size_entry_of rows size (enough rows size mtime w'.0) in
        let listed : Memᴰ size (map (λ e. e.0) (group_by_size rows)) = mem-map (λ e. e.0) _ entry in
        let k = mtime_groups_complete order two_dir size (files_with_size rows size) mtime w' in
        rw e (
          to_largest_first order _ (
            mem-flat_map (λ size. mtime_groups order two_dir (size, files_with_size rows size)) _
              (mem-sort_of (larger_first signed_rank) _ listed) k)),
  )

  mtime_loop-done :
      (queries : SizeQueries) (rows : List ScannedFile) (two_dir : Bool) (sizes : List ℕ)
      (groups : List DupGroup)
      → mtime_loop order queries rows two_dir sizes ≡ done groups
      → groups
        ≡ flat_map (λ size. mtime_groups order two_dir (size, files_with_size rows size)) sizes
  unfolding mtime_loop flat_map
  mtime_loop-done queries rows two_dir [] groups h = sym (done_inj h)
  mtime_loop-done queries rows two_dir (size ∷ sizes) groups h =
      elim (Bool-cases (queries.with_size size)) [
        | inr e ↦ absurd (let h' = rw (mtime_loop, e) at h in ground (arith, h'))
        | inl e ↦
            let (rest, q, last) =
              >>=-eq-done (mtime_loop order queries rows two_dir sizes) _
                (rw (mtime_loop, e) at h) in
            sym (done_inj last)
            ∙ ap (λ l. mtime_groups order two_dir (size, files_with_size rows size) ++ l)
                (mtime_loop-done queries rows two_dir sizes rest q)
      ]

  -- What the store's pass returns without an error.
  pub mtime_dups_store-done :
      (queries : SizeQueries) (rows : List ScannedFile) (two_dir : Bool) (groups : List DupGroup)
      → mtime_dups_store order queries rows two_dir ≡ done groups
      → groups ≡ found_groups rows two_dir
  unfolding mtime_dups_store
  mtime_dups_store-done queries rows two_dir groups h = elim (Bool-cases queries.collides) [
    | inr e ↦ absurd (let h' = rw e at h in ground (arith, h'))
    | inl e ↦
        let (rest, q, last) =
          >>=-eq-done (mtime_loop order queries rows two_dir (collision_sizes rows)) _
            (rw e at h) in
        sym (done_inj last)
        ∙ ap (largest_first order)
            (mtime_loop-done queries rows two_dir (collision_sizes rows) rest q)
  ]

  mtime_loop-answers :
      (queries : SizeQueries) (rows : List ScannedFile) (two_dir : Bool) (sizes : List ℕ)
      → ((size : ℕ) → queries.with_size size ≡ true)
      → mtime_loop order queries rows two_dir sizes
        ≡ done
            (flat_map (λ size. mtime_groups order two_dir (size, files_with_size rows size)) sizes)
  unfolding mtime_loop flat_map
  mtime_loop-answers queries rows two_dir [] h = refl
  mtime_loop-answers queries rows two_dir (size ∷ sizes) h =
      let now = h size in
      let rest = mtime_loop-answers queries rows two_dir sizes h in rw (mtime_loop, now, rest) refl

  -- If the queries for sizes succeed, the pass over the rows of the store, when they are the files of two
  -- lists, ends without an error, and reports the groups that the pass over the two lists reports,
  -- whatever the orders in which the two visit their maps.
  pub mtime_dups_store_iff :
      (other : Order) (queries : SizeQueries) (files_a files_b : List ScannedFile)
      → queries.collides ≡ true
      → ((size : ℕ) → queries.with_size size ≡ true)
      → (groups : List DupGroup) × (mtime_dups_store order queries
            (with_source 0 files_a ++ with_source 1 files_b)
            (ltb 0 (length files_b))
          ≡ done groups)
        × ((g : DupGroup) → Memᴰ g groups ↔ Memᴰ g (mtime_dups other files_a files_b))
  unfolding mtime_dups_store
  mtime_dups_store_iff other queries files_a files_b first each =
      let rows = with_source 0 files_a ++ with_source 1 files_b in
      let two_dir = ltb 0 (length files_b) in
      let all = mtime_loop-answers queries rows two_dir (collision_sizes rows) each in
      (
        found_groups rows two_dir,
        rw (first, all) refl,
        λ g.
            let (sound, complete) = found_groups_iff rows two_dir g in
            let (to, from) = mtime_dups_iff other files_a files_b g in
            (λ m. from (sound m), λ m. complete (to m)),
      )

  largest_first-IsDescending :
      (groups : List DupGroup) → IsDescending (λ g. signed_rank g.size) (largest_first order groups)
  unfolding largest_first
  largest_first-IsDescending groups =
      sort-IsDescending (λ (g : DupGroup). signed_rank g.size) (order.visit _ groups)

  -- The groups come largest file size first, in both forms of the pass.
  pub mtime_dups-IsDescending :
      (files_a files_b rows : List ScannedFile) (two_dir : Bool)
      → IsDescending (λ (g : DupGroup). signed_rank g.size) (mtime_dups order files_a files_b)
        × IsDescending (λ (g : DupGroup). signed_rank g.size) (found_groups rows two_dir)
  unfolding mtime_dups
  mtime_dups-IsDescending files_a files_b rows two_dir =
      (largest_first-IsDescending _, largest_first-IsDescending _)
