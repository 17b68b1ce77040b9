-- ===== src/Run/Reported.antt =====
-- A run of main.go with --no-interactive: the report holds every group that was found.
use dup_detector.Prelude.{
  ◌⊎◌, if_true, if_false, nil_of_length, flat_map-append, flat_map, ◌≡◌, refl, sym, ap, ◌∙◌, inl,
  inr, Bool, true, not, ◌&&◌, List, [], ◌∷◌, ◌++◌, ◌==◌, arith, if◌then◌else◌, length, Bool-cases,
}
use dup_detector.Prelude.Runs.{Run, Run-cases, done, failed, panic, ◌>>=◌}
use dup_detector.Text.{Text}
use dup_detector.Files.{ScannedFile, DupGroup}
use dup_detector.Detect.{checksum_dups_store, mtime_dups_store}
use dup_detector.Detect.Receivers.{checksum_dups_store-Related}
use dup_detector.Options.{Options, Settings, read_options, is_cross_root}
use dup_detector.Report.{Row, CsvWriter, dup_csv_header, new_dup_csv_writer}
use dup_detector.Report.Rows.{rows_of, NeverFails, write_groups-all}
use dup_detector.Run.{
  removed_files, Machine, Inventory, Progress, Outcome, untouched, started, open_inventory,
  open_report, inventory_rows, early_trees, collect, find_groups, end_report, conclude,
  detect_and_delete, run,
}

module _ {F W : Type 0} (machine : Machine F W) (o : Options) (roots : List Text)
    (rows : List ScannedFile) where
  -- the pass by hash, with the groups themselves as its state
  abbrev pub hash_pass : Bool × List DupGroup
  hash_pass =
      checksum_dups_store machine.order machine.hash (λ batch groups. (true, groups ++ batch))
        machine.queries rows (is_cross_root o roots) [] []

  -- the groups of the pass that the options choose, on their own, or its error
  abbrev pub groups_found : Run (List DupGroup)
  groups_found =
      if o.checksum
      then if hash_pass.0 then done hash_pass.1 else failed
      else mtime_dups_store machine.order machine.queries rows (is_cross_root o roots)

  abbrev group_rows : DupGroup → List Row
  group_rows = rows_of machine.csv roots machine.order

  -- the groups, and what the report holds of them
  abbrev InReport : Progress → List DupGroup → Type 0
  InReport p groups = (p.groups ≡ groups) × (p.report ≡ dup_csv_header ∷ flat_map group_rows groups)

  collect-InReport :
      (batch : List DupGroup) (p : Progress) (groups : List DupGroup)
      → o.no_interactive ≡ true
      → NeverFails machine.csv
      → InReport p groups
      → ((collect machine o roots rows batch p).0 ≡ true)
        × InReport (collect machine o roots rows batch p).1 (groups ++ batch)
  unfolding collect
  collect-InReport batch p groups silent steady (same, out) =
      let all = write_groups-all machine.csv roots machine.order batch p.report steady in
      rw (collect, silent, all)
        (
          refl,
          (
            ap (λ l. l ++ batch) same,
            ap (λ l. l ++ flat_map group_rows batch) out
                ∙ ap (◌∷◌ dup_csv_header) (sym (flat_map-append group_rows groups batch)),
          ),
        )

  -- the pass by hash as the run makes it
  abbrev run_pass : Bool × Progress
  run_pass =
      checksum_dups_store machine.order machine.hash (collect machine o roots rows) machine.queries
        rows (is_cross_root o roots) [] (started [] (dup_csv_header ∷ []))

  checksum_InReport :
      o.no_interactive ≡ true
      → NeverFails machine.csv
      → (run_pass.0 ≡ hash_pass.0) × InReport run_pass.1 hash_pass.1
  unfolding flat_map
  checksum_InReport silent steady =
      checksum_dups_store-Related machine.order machine.hash (collect machine o roots rows)
        (λ batch groups. (true, groups ++ batch)) InReport
        (λ batch q groups r'.
          let (ok, kept) = collect-InReport batch q groups silent steady r' in (ok, refl, kept))
        machine.queries rows (is_cross_root o roots) [] (started [] (dup_csv_header ∷ [])) []
        (refl, refl)

  -- what stands in the report before the end
  abbrev reported_before : List DupGroup → List Row
  reported_before groups = dup_csv_header ∷ (if o.checksum then flat_map group_rows groups else [])

  -- The pass finds groups, and then the run has them and the rows so far; or both have an error.
  abbrev FindsAlike : Run Progress → Run (List DupGroup) → Type 0
  FindsAlike x y =
      ((p : Progress) × (groups : List DupGroup) × (x ≡ done p)
        × (y ≡ done groups)
        × (p.groups ≡ groups)
        × (p.report ≡ reported_before groups))
      ⊎ (((x ≡ failed) × (y ≡ failed)) ⊎ ((x ≡ panic) × (y ≡ panic)))

  find_groups-FindsAlike :
      o.no_interactive ≡ true
      → NeverFails machine.csv
      → FindsAlike
          (find_groups machine o roots rows (started [] (dup_csv_header ∷ [])))
          groups_found
  unfolding find_groups
  find_groups-FindsAlike silent steady =
      let two_dir = is_cross_root o roots in
      elim (Bool-cases o.checksum) [
        | inl e ↦
            let (ok, (same, out)) = checksum_InReport silent steady in
            let chosen = if_true o.checksum _ _ e in
            let passed = if_true o.checksum _ _ e in
            elim (Bool-cases hash_pass.0) [
              | inl f ↦ inl (
                run_pass.1,
                hash_pass.1,
                chosen ∙ if_true run_pass.0 _ _ (ok ∙ f),
                passed ∙ if_true hash_pass.0 _ _ f,
                same,
                out ∙ ap (◌∷◌ dup_csv_header) (sym (if_true o.checksum _ _ e)),
              )
              | inr f ↦ inr (
                  inl (
                    chosen ∙ if_false run_pass.0 _ _ (ok ∙ f),
                    passed ∙ if_false hash_pass.0 _ _ f,
                  ))
            ]
        | inr e ↦
            let chosen = if_false o.checksum _ _ e in
            let passed = if_false o.checksum _ _ e in
            let with_groups : List DupGroup → Run Progress =
              λ groups. done (record (started [] (dup_csv_header ∷ [])) { groups = groups }) in
            elim (Run-cases (mtime_dups_store machine.order machine.queries rows two_dir)) [
              | inl (groups, f) ↦ inl (
                record (started [] (dup_csv_header ∷ [])) { groups = groups },
                groups,
                chosen ∙ ap (λ r. r >>= with_groups) f,
                passed ∙ f,
                refl,
                ap (◌∷◌ dup_csv_header) (sym (if_false o.checksum _ _ e)),
              )
              | inr (inl f) ↦ inr (inl (chosen ∙ ap (λ r. r >>= with_groups) f, passed ∙ f))
              | inr (inr f) ↦ inr (inr (chosen ∙ ap (λ r. r >>= with_groups) f, passed ∙ f))
            ]
      ]

  before_nil :
      (groups : List DupGroup)
      → groups ≡ []
      → reported_before groups ≡ dup_csv_header ∷ flat_map group_rows groups
  unfolding flat_map
  before_nil [] e = elim (Bool-cases o.checksum) [
    | inl c ↦ ap (◌∷◌ dup_csv_header) (if_true o.checksum [] [] c)
    | inr c ↦ ap (◌∷◌ dup_csv_header) (if_false o.checksum [] [] c)
  ]
  before_nil (g ∷ groups) e = absurd (ground arith)

  end_report-all :
      (p : Progress) (groups : List DupGroup)
      → NeverFails machine.csv
      → p.groups ≡ groups
      → p.report ≡ reported_before groups
      → end_report machine o roots rows p ≡ done (dup_csv_header ∷ flat_map group_rows groups)
  unfolding end_report
  end_report-all p groups steady same out = elim (Bool-cases o.checksum) [
    | inl c ↦
        if_true o.checksum _ _ c
        ∙ ap done (out ∙ ap (◌∷◌ dup_csv_header) (if_true o.checksum _ _ c))
    | inr c ↦
        let all = write_groups-all machine.csv roots machine.order p.groups p.report steady in
        if_false o.checksum _ _ c
        ∙ (ap (λ (r : Bool × List Row). if r.0 then done r.1 else failed) all
            ∙ ap done (
                ap (λ l. l ++ flat_map group_rows p.groups)
                  (out ∙ ap (◌∷◌ dup_csv_header) (if_false o.checksum _ _ c))
                ∙ ap (λ g. dup_csv_header ∷ flat_map group_rows g) same))
  ]

  conclude-report :
      (p : Progress) (groups : List DupGroup) (w : W)
      → o.no_interactive ≡ true
      → NeverFails machine.csv
      → p.groups ≡ groups
      → p.report ≡ reported_before groups
      → conclude machine o roots rows p w
        ≡ done
            (record { report = dup_csv_header ∷ flat_map group_rows groups; state = untouched w })
  unfolding conclude
  conclude-report p groups w silent steady same out =
      let empty = length p.groups == 0 && length p.trees.0.confirmed == 0 in
      let whole : List Row → Run (Outcome W) =
        λ report. done (record { report = report; state = untouched w }) in
      elim (Bool-cases empty) [
        | inl e ↦
            let none_found : groups ≡ [] = sym same ∙ nil_of_length p.groups (ground (arith, e)) in
            if_true empty _ _ e ∙ ap whole (out ∙ before_nil groups none_found)
        | inr e ↦
            if_false empty _ _ e
            ∙ (if_true o.no_interactive _ _ silent
                ∙ ap (λ m. m >>= whole) (end_report-all p groups steady same out))
      ]

new_dup_csv_writer-header :
    (csv : CsvWriter) → NeverFails csv → new_dup_csv_writer csv ≡ (true, dup_csv_header ∷ [])
unfolding new_dup_csv_writer
new_dup_csv_writer-header csv steady =
    let written = steady.0 dup_csv_header [] in
    let flushed = steady.1 (dup_csv_header ∷ []) in rw (new_dup_csv_writer, written, flushed) refl

open_report-header :
    {F W : Type 0} (machine : Machine F W) (o : Options)
    → o.no_interactive ≡ true
    → NeverFails machine.csv
    → open_report machine o ≡ done (dup_csv_header ∷ [])
unfolding open_report
open_report-header machine o silent steady =
    if_false (not o.no_interactive) _ _ (ground (arith, silent))
    ∙ ap (λ (r : Bool × List Row). if r.0 then done r.1 else failed)
        (new_dup_csv_writer-header machine.csv steady)

-- With --no-interactive, once the options are read and the inventory is there, and if writing the report
-- never fails, the run ends with an error exactly as the chosen pass over the inventory does, by MD5 as
-- well as by mtime. Where the pass finds groups, the run ends without one, deletes nothing but files of
-- inventories, and its report is the header and the rows of all of these groups.
pub run-reports :
    {F W : Type 0} (machine : Machine F W) (o : Options) (args : List Text) (w : W) (st : Settings)
    (inventory : Inventory) (rows : List ScannedFile)
    → o.no_interactive ≡ true
    → NeverFails machine.csv
    → read_options machine.host o args ≡ done st
    → open_inventory machine o ≡ done inventory
    → inventory_rows machine st.scan st.roots inventory ≡ done rows
    → run machine o args w ≡ (
        groups_found machine o st.roots rows >>= λ groups. done (
          record {
            report = dup_csv_header ∷ flat_map (rows_of machine.csv st.roots machine.order) groups;
            state = untouched w;
          },
          removed_files machine o inventory,
        ))
unfolding run early_trees detect_and_delete
run-reports machine o args w st inventory rows silent steady options opened filled =
    let report = open_report-header machine o silent steady in
    let early : early_trees machine o st.roots rows st.scan ≡ done [] =
      if_true o.no_interactive _ _ silent in
    elim (find_groups-FindsAlike machine o st.roots rows silent steady) [
      | inl (p, groups, found, passed, same, out) ↦
          let end = conclude-report machine o st.roots rows p groups w silent steady same out in
          rw (run, options, opened, report, filled, detect_and_delete, early, found, end, passed)
            refl
      | inr (inl (found, passed)) ↦
          rw (run, options, opened, report, filled, detect_and_delete, early, found, passed) refl
      | inr (inr (found, passed)) ↦
          rw (run, options, opened, report, filled, detect_and_delete, early, found, passed) refl
    ]
