-- ===== src/Report/Rows.antt =====
-- The rows of the report, against the groups it is made from.
use dup_detector.Prelude.{
  nil_of_length, flat_map, ◌≡◌, refl, sym, ap, ◌∙◌, ◌⊎◌, inl, inr, Bool, true, false, List, [], ◌∷◌,
  ◌++◌, map, Permᴰ, arith, ◌==◌, length, length-perm, length-map, sort-perm, Bool-cases, Order,
}
use mathlib.Core.List.{append-nil, append_assoc}
use dup_detector.Text.{Text}
use dup_detector.Files.{ScannedFile, DupGroup}
use dup_detector.Store.{by_path}
use dup_detector.Cleanup.Cadence.Laws.{perm-map}
use dup_detector.Report.{
  Row, CsvWriter, dup_csv_header, csv_row, write_files, sorted_files, write_groups,
  new_dup_csv_writer, print_dup_csv,
}

pair_path : {A B : Type 0} {p : A × B} {a : A} {b : B} → p.0 ≡ a → p.1 ≡ b → p ≡ (a, b)
pair_path e d = λ i. (e i, d i)

-- every write and every flush succeeds
abbrev pub NeverFails : CsvWriter → Type 0
NeverFails csv =
    ((row : Row) (rows : List Row) → csv.writes row rows ≡ true)
    × ((rows : List Row) → csv.flushes rows ≡ true)

module _ (csv : CsvWriter) (roots : List Text) (order : Order) where
  -- the rows of a group, by path
  abbrev pub rows_of : DupGroup → List Row
  rows_of g = map (csv_row csv roots g) (sorted_files csv roots order g)

  -- what is written is a first part of what there is to write, and all of it if there is no error
  abbrev pub IsPart : List Row → List Row → Bool × List Row → Type 0
  IsPart before all (ok, rows) =
      (part : List Row) × (rest : List Row) × (rows ≡ before ++ part)
      × (all ≡ part ++ rest)
      × ((ok ≡ false) ⊎ (rest ≡ []))

  write_files-IsPart :
      (g : DupGroup) (files : List ScannedFile) (rows : List Row)
      → IsPart rows (map (csv_row csv roots g) files) (write_files csv roots g files rows)
  unfolding write_files
  write_files-IsPart g [] rows = ([], [], sym (append-nil rows), refl, inr refl)
  write_files-IsPart g (f ∷ files) rows =
      elim (Bool-cases (csv.writes (csv_row csv roots g f) rows)) [
        | inr e ↦
            rw (write_files, e)
              ([], map (csv_row csv roots g) (f ∷ files), sym (append-nil rows), refl, inl refl)
        | inl e ↦
            let (part, rest, out, all, end) =
              write_files-IsPart g files (rows ++ csv_row csv roots g f ∷ []) in
            rw (write_files, e)
              (
                csv_row csv roots g f ∷ part,
                rest,
                out ∙ append_assoc rows (csv_row csv roots g f ∷ []) part,
                ap (◌∷◌ (csv_row csv roots g f)) all,
                end,
              )
      ]

  rows_of-nil : (g : DupGroup) → (length g.files == 0) ≡ true → rows_of g ≡ []
  unfolding sorted_files
  rows_of-nil g e =
      let same =
        length-perm
          (Permᴰ.trans (sort-perm by_path (order.visit _ g.files)) (order.visit-perm _ g.files)) in
      nil_of_length (rows_of g) (
        length-map (csv_row csv roots g) (sorted_files csv roots order g)
        ∙ (same ∙ ground (arith, e)))

  pub write_groups-IsPart :
      (groups : List DupGroup) (rows : List Row)
      → IsPart rows (flat_map rows_of groups) (write_groups csv roots order groups rows)
  unfolding write_groups flat_map
  write_groups-IsPart [] rows = ([], [], sym (append-nil rows), refl, inr refl)
  write_groups-IsPart (g ∷ groups) rows = elim (Bool-cases (length g.files == 0)) [
    | inl e ↦ rw (write_groups, e, rows_of-nil g e) (write_groups-IsPart groups rows)
    | inr e ↦
        let files = write_files csv roots g (sorted_files csv roots order g) rows in
        let (part, rest, out, all, end) =
          write_files-IsPart g (sorted_files csv roots order g) rows in
        elim (Bool-cases files.0) [
          | inr bad ↦
              rw (write_groups, e, bad)
                (
                  part,
                  rest ++ flat_map rows_of groups,
                  out,
                  ap (λ l. l ++ flat_map rows_of groups) all ∙ append_assoc part rest _,
                  inl refl,
                )
          | inl ok ↦
              let (more, left, out', all', end') = write_groups-IsPart groups files.1 in
              let none_left : rest ≡ [] = elim end [
                | inl bad ↦ absurd (ground (arith, ok, bad))
                | inr all_out ↦ all_out
              ] in
              rw (write_groups, e, ok)
                (
                  part ++ more,
                  left,
                  out' ∙ (ap (λ l. l ++ more) out ∙ append_assoc rows part more),
                  ap (λ l. l ++ flat_map rows_of groups)
                        (all ∙ (ap (◌++◌ part) none_left ∙ append-nil part))
                      ∙ (ap (◌++◌ part) all' ∙ sym (append_assoc part more left)),
                  end',
                )
        ]
  ]

  write_files-ok :
      (g : DupGroup) (files : List ScannedFile) (rows : List Row)
      → NeverFails csv
      → (write_files csv roots g files rows).0 ≡ true
  unfolding write_files
  write_files-ok g [] rows h = refl
  write_files-ok g (f ∷ files) rows h =
      rw (write_files, h.0 (csv_row csv roots g f) rows)
        (write_files-ok g files (rows ++ csv_row csv roots g f ∷ []) h)

  write_groups-ok :
      (groups : List DupGroup) (rows : List Row)
      → NeverFails csv
      → (write_groups csv roots order groups rows).0 ≡ true
  unfolding write_groups
  write_groups-ok [] rows h = h.1 rows
  write_groups-ok (g ∷ groups) rows h = elim (Bool-cases (length g.files == 0)) [
    | inl e ↦ rw (write_groups, e) (write_groups-ok groups rows h)
    | inr e ↦
        let ok = write_files-ok g (sorted_files csv roots order g) rows h in
        rw (write_groups, e, ok)
          (write_groups-ok groups (write_files csv roots g (sorted_files csv roots order g) rows).1
            h)
  ]

  -- Without failures, all rows are written.
  pub write_groups-all :
      (groups : List DupGroup) (rows : List Row)
      → NeverFails csv
      → write_groups csv roots order groups rows ≡ (true, rows ++ flat_map rows_of groups)
  write_groups-all groups rows h =
      let (part, rest, out, all, end) = write_groups-IsPart groups rows in
      let ok = write_groups-ok groups rows h in
      let none_left : rest ≡ [] = elim end [
        | inl bad ↦ absurd (ground (arith, ok, bad))
        | inr all_out ↦ all_out
      ] in
      let whole = all ∙ (ap (◌++◌ part) none_left ∙ append-nil part) in
      pair_path ok (out ∙ ap (◌++◌ rows) (sym whole))

  -- What PrintDupCSV writes is a first part of the header and the groups' rows, and all of them unless it
  -- returns an error; the rows of a group are, up to their order, one for each of its files.
  pub print_dup_csv-IsPart :
      (groups : List DupGroup)
      → IsPart [] (dup_csv_header ∷ flat_map rows_of groups) (print_dup_csv csv roots order groups)
        × ((g : DupGroup) → Permᴰ (rows_of g) (map (csv_row csv roots g) g.files))
  unfolding print_dup_csv new_dup_csv_writer sorted_files
  print_dup_csv-IsPart groups = (
    elim (Bool-cases (csv.writes dup_csv_header [])) [
      | inr e ↦
          rw (print_dup_csv, new_dup_csv_writer, e)
            ([], dup_csv_header ∷ flat_map rows_of groups, refl, refl, inl refl)
      | inl e ↦ elim (Bool-cases (csv.flushes (dup_csv_header ∷ []))) [
        | inr d ↦
            rw (print_dup_csv, new_dup_csv_writer, e, d)
              (dup_csv_header ∷ [], flat_map rows_of groups, refl, refl, inl refl)
        | inl d ↦
            let (part, rest, out, all, end) = write_groups-IsPart groups (dup_csv_header ∷ []) in
            rw (print_dup_csv, new_dup_csv_writer, e, d)
              (dup_csv_header ∷ part, rest, out, ap (◌∷◌ dup_csv_header) all, end)
      ]
    ],
    λ g.
        perm-map (csv_row csv roots g)
          (Permᴰ.trans (sort-perm by_path (order.visit _ g.files)) (order.visit-perm _ g.files)),
  )
