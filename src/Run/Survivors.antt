-- ===== src/Run/Survivors.antt =====
-- A headless run of main.go, from the detection by size and mtime to the last deletion.
use dup_detector.Prelude.{
  refl, if_true, if_false, ℕ, ◌<◌, ◌≡◌, sym, ap, ◌∙◌, inl, inr, Bool, true, false, not, ◌&&◌, some,
  List, [], ◌∷◌, Memᴰ, arith, ◌==◌, if◌then◌else◌, length, has, text_eq, nat_eq, Distinct,
  mem-select, mem-select_of, Bool-cases,
}
use mathlib.Core.Path.{subst}
use dup_detector.Prelude.Runs.{Run, done, failed, ◌>>=◌}
use dup_detector.Text.{Text}
use dup_detector.Files.{TreeDupPair, DirOverlapBlock, ScannedFile, DupGroup, ScanConfig}
use dup_detector.Detect.{mtime_dups_store, files_with_size}
use dup_detector.Detect.Mtime.{mtime_class}
use dup_detector.Detect.Reports.{IsReport, found_groups_iff, mtime_dups_store-done}
use dup_detector.Options.{Options, is_cross_root}
use dup_detector.Cleanup.Dispose.{State, paths_of, any_alive}
use dup_detector.Cleanup.Actions.{file_group}
use dup_detector.Cleanup.Headless.{headless_delete}
use dup_detector.Cleanup.Headless.Steps.{Respects, Distinct-select}
use dup_detector.Cleanup.Headless.Survivors.{headless_delete-survivor}
use dup_detector.Cleanup.Headless.Blocks.{one_file, has_path, overlap_cleanup-survivor}
use dup_detector.TreeDup.Stored.{of_option}
use dup_detector.TreeDup.Incremental.{new_tree_dup_state, add_all_confirmed}
use dup_detector.TreeDup.Incremental.Checked.{lookup_stored}
use dup_detector.Report.{Row}
use dup_detector.Run.{
  prints, Machine, Progress, Outcome, config_of, column_of, started, early_trees, find_groups,
  overlaps, delete_found, conclude, detect_and_delete,
}

-- a file of a class is a row of its size and mtime
in_class :
    (rows : List ScannedFile) (size mtime : ℕ) {f : ScannedFile}
    → Memᴰ f (mtime_class (files_with_size rows size) size mtime).files
    → Memᴰ f rows × (f.size ≡ size) × (f.mod_time ≡ mtime)
unfolding files_with_size
in_class rows size mtime m =
    let (n, at_time) = mem-select (λ f. f.mod_time == mtime) (files_with_size rows size) m in
    let (k, at_size) = mem-select (λ f. f.size == size) rows n in
    (k, ground (arith, at_size), ground (arith, at_time))

-- two reports on rows of distinct paths share all files or no path
reports-Respects :
    (rows : List ScannedFile) (two_dir : Bool) (g h : DupGroup)
    → Distinct (paths_of rows)
    → IsReport two_dir rows g
    → IsReport two_dir rows h
    → Respects g.files (file_group h)
unfolding files_with_size
reports-Respects rows two_dir g h distinct (size, mtime, e, w) (size', mtime', e', w') =
    let separate =
      Distinct-select (λ f. f.mod_time == mtime') (files_with_size rows size')
        (Distinct-select (λ f. f.size == size') rows distinct) in
    let sames = size == size' && mtime == mtime' in
    rw (e, e')
      (
        separate,
        elim (Bool-cases sames) [
          | inl same ↦ inr (λ f m.
              let (k, at_size, at_time) = in_class rows size' mtime' m in
              mem-select_of (λ x. x.mod_time == mtime) (files_with_size rows size)
                (mem-select_of (λ x. x.size == size) rows k (ground (arith, same, at_size)))
                (ground (arith, same, at_time)))
          | inr other ↦ inl (λ f m.
              elim (Bool-cases (
                has f.path
                  (paths_of (mtime_class (files_with_size rows size') size' mtime').files))) [
                    | inr out ↦ out
                    | inl at ↦
                        let (x, n, path) = has_path f.path _ at in
                        let (k, f_size, f_time) = in_class rows size mtime m in
                        let (l, x_size, x_time) = in_class rows size' mtime' n in
                        let one = one_file f x rows distinct k l path in
                        let one_size : f.size ≡ x.size = ap (λ (y : ScannedFile). y.size) one in
                        let one_time : f.mod_time ≡ x.mod_time =
                          ap (λ (y : ScannedFile). y.mod_time) one in
                        absurd (
                          ground (arith, other, f_size, f_time, x_size, x_time, one_size, one_time))
                  ])
        ],
      )

nonempty : {A : Type 0} {x : A} (xs : List A) → Memᴰ x xs → (length xs == 0) ≡ false
nonempty [] m = elim m [ ]
nonempty (y ∷ xs) m = ground arith

module _ {F W : Type 0} (machine : Machine F W) (o : Options) (roots : List Text)
    (rows : List ScannedFile) where
  -- a headless run over blocks and groups ends, and a file of `t` stays alive
  abbrev Spares : List ScannedFile → W → List DirOverlapBlock × List DupGroup → Type 0
  Spares t w (blocks, groups) =
      (s : State W) × (headless_delete machine.disk (config_of o)
          (lookup_stored machine.database machine.order rows) [] blocks groups w
        ≡ some s)
      × (any_alive t s.deleted ≡ true)

  overlaps-Spares :
      (t : List ScannedFile) (groups : List DupGroup) (w : W)
      → 0 < length t
      → ((h : DupGroup) → Memᴰ h groups → Respects t (file_group h))
      → Spares t w (overlaps machine o roots rows groups)
  unfolding overlaps
  overlaps-Spares t groups w some_file respects =
      let lookup = lookup_stored machine.database machine.order rows in
      elim (Bool-cases o.no_overlap) [
        | inl e ↦ subst (Spares t w) (sym (if_true o.no_overlap _ _ e)) (
            headless_delete-survivor machine.disk (config_of o) lookup t [] groups w some_file
              (λ b m. elim m [ ]) respects)
        | inr e ↦ subst (Spares t w) (sym (if_false o.no_overlap _ _ e)) (
            overlap_cleanup-survivor machine.order (column_of o roots) o.overlap_block_size
              o.min_overlap machine.disk (config_of o) lookup t groups w some_file respects)
      ]

  conclude-survivor :
      (p : Progress) (g : DupGroup) (w : W)
      → o.headless ≡ true
      → o.no_interactive ≡ false
      → prints machine o [] p.groups ≡ true
      → p.trees.0.confirmed ≡ []
      → 0 < length g.files
      → Memᴰ g p.groups
      → ((h : DupGroup) → Memᴰ h p.groups → Respects g.files (file_group h))
      → (out : Outcome W) × (conclude machine o roots rows p w ≡ done out)
        × (any_alive g.files out.state.deleted ≡ true)
  unfolding conclude delete_found
  conclude-survivor p g w headless loud printed no_tree some_file m respects =
      let (s, q, alive) = overlaps-Spares g.files p.groups w some_file respects in
      let rest : State W → Run (Outcome W) = λ x. done (record { report = p.report; state = x }) in
      let deleted : delete_found machine o roots rows [] p.groups w ≡ done s =
        if_true o.headless _ _ headless ∙ ap of_option q in
      let some_group = nonempty p.groups m in
      (
        record { report = p.report; state = s },
        if_false (length p.groups == 0 && length p.trees.0.confirmed == 0) _ _
              (ground (arith, some_group))
            ∙ (if_false o.no_interactive _ _ loud
                ∙ (ap
                      (λ tree_pairs.
                        if not (prints machine o tree_pairs p.groups)
                        then failed
                        else (delete_found machine o roots rows tree_pairs p.groups w >>= rest))
                      no_tree
                    ∙ (if_false (not (prints machine o [] p.groups)) _ _ (ground (arith, printed))
                        ∙ ap (λ r. r >>= rest) deleted))),
        alive,
      )

  -- A headless run by size and mtime, where no query of the pass fails, if it finds no tree pair, no path is
  -- in the inventory twice and the groups can be printed, ends without an error or a panic, in whatever
  -- mode it deletes and whatever the disk answers, and of every group that it found some file is not
  -- disposed of.
  pub detect_and_delete-survivor :
      (cfg : ScanConfig) (report : List Row) (w : W) (reports : List DupGroup) (g : DupGroup)
      → o.headless ≡ true
      → o.no_interactive ≡ false
      → o.checksum ≡ false
      → mtime_dups_store machine.order machine.queries rows (is_cross_root o roots) ≡ done reports
      → prints machine o [] reports ≡ true
      → Distinct (paths_of rows)
      → early_trees machine o roots rows cfg ≡ done []
      → Memᴰ g reports
      → (out : Outcome W) × (detect_and_delete machine o roots rows cfg report w ≡ done out)
        × (any_alive g.files out.state.deleted ≡ true)
  unfolding detect_and_delete find_groups add_all_confirmed new_tree_dup_state
  detect_and_delete-survivor cfg report w reports g headless loud by_mtime passed printed distinct
        early m =
      let two_dir = is_cross_root o roots in
      let p : Progress = record (started [] report) { groups = reports } in
      let with_groups : List DupGroup → Run Progress =
        λ groups. done (record (started [] report) { groups = groups }) in
      let after : List TreeDupPair → Run (Outcome W) = λ trees.
        find_groups machine o roots rows (started trees report) >>= λ q.
        conclude machine o roots rows q w in
      let reported : (h : DupGroup) → Memᴰ h reports → IsReport two_dir rows h = λ h k.
        (found_groups_iff machine.order rows two_dir h).0 (
          subst (Memᴰ h)
            (mtime_dups_store-done machine.order machine.queries rows two_dir reports passed) k) in
      let (size, mtime, e, (two, spans)) = reported g m in
      let some_file : 0 < length g.files = omega (arith, two) in
      let (out, ends, alive) =
        conclude-survivor p g w headless loud printed refl some_file m
          (λ h k. reports-Respects rows two_dir g h distinct (reported g m) (reported h k)) in
      let found : find_groups machine o roots rows (started [] report) ≡ done p =
        if_false o.checksum _ _ by_mtime ∙ ap (λ r. r >>= with_groups) passed in
      (
        out,
        ap (λ r. r >>= after) early
            ∙ (ap (λ r. r >>= λ q. conclude machine o roots rows q w) found ∙ ends),
        alive,
      )
