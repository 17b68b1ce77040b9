-- ===== src/Report.antt =====
-- no_interactive.go: the CSV report of a run without prompts. The CSV writer is a parameter that tells
-- whether a row can be written and whether a flush succeeds, by the rows so far; the format of a time
-- is a parameter too.
pub mod Ids
pub mod Rows
use dup_detector.Prelude.{
  ℕ, suc, Bool, true, false, not, Option, none, some, List, [], ◌∷◌, ◌++◌, map, if◌then◌else◌, ◌==◌,
  length, get_elem?, list_eq, sort, Order,
}
use dup_detector.Text.{Text, codes}
use dup_detector.Text.Decimals.{decimal, signed_decimal}
use dup_detector.Files.{ScannedFile, DupGroup}
use dup_detector.Store.{by_path}

abbrev pub Row : Type 0
Row = List Text

pub record CsvWriter : Type 0 where
  pub writes : Row → List Row → Bool
  pub flushes : List Row → Bool
  pub utc_time : ℕ → Text

-- dupCSVHeader
abbrev pub dup_csv_header : Row
dup_csv_header =
    codes "id"
    ∷ codes "id_source"
    ∷ codes "size_bytes"
    ∷ codes "mtime_utc"
    ∷ codes "copies"
    ∷ codes "root"
    ∷ codes "path"
    ∷ []

-- GroupID
unfoldable pub group_id : DupGroup → Text
unfolding signed_decimal
group_id g =
    if not (list_eq g.hash [])
    then g.hash
    else b's'
      ∷ (signed_decimal g.size
          ++ b'-' ∷ b'm' ∷ signed_decimal (elim g.files [ [] ↦ 0 | f ∷ files ↦ f.mod_time ]))

-- IDSource
unfoldable pub id_source : DupGroup → Text
id_source g = if not (list_eq g.hash []) then codes "md5" else codes "size+mtime"

-- the root that a source stands for
unfoldable pub root_of : List Text → ℕ → Text
root_of roots source = elim (get_elem? roots source) [ none ↦ [] | some root ↦ root ]

module _ (csv : CsvWriter) (roots : List Text) where
  -- the row of a file of a group
  unfoldable pub csv_row : DupGroup → ScannedFile → Row
  unfolding group_id id_source decimal signed_decimal root_of
  csv_row g f =
      group_id g
      ∷ id_source g
      ∷ signed_decimal f.size
      ∷ csv.utc_time f.mod_time
      ∷ decimal (length g.files)
      ∷ root_of roots f.source
      ∷ f.path
      ∷ []

  -- the loop over the files of a group: whether it comes to its end, and the rows then
  unfoldable pub write_files : DupGroup → List ScannedFile → List Row → Bool × List Row
  unfolding csv_row
  write_files g [] rows = (true, rows)
  write_files g (f ∷ files) rows =
      let more = write_files g files (rows ++ csv_row g f ∷ []) in
      if csv.writes (csv_row g f) rows then more else (false, rows)

  module _ (order : Order) where
    -- a copy of the files, by their paths
    unfoldable pub sorted_files : DupGroup → List ScannedFile
    unfolding sort by_path
    sorted_files g = sort by_path (order.visit _ g.files)

    -- WriteGroups: whether there was no error, and the rows
    unfoldable pub write_groups : List DupGroup → List Row → Bool × List Row
    unfolding write_files sorted_files
    write_groups [] rows = (csv.flushes rows, rows)
    write_groups (g ∷ groups) rows =
        let (ok, rows') = write_files g (sorted_files g) rows in
        let skipped = write_groups groups rows in
        let more = write_groups groups rows' in
        if length g.files == 0 then skipped else if ok then more else (false, rows')

-- NewDupCSVWriter: whether the header is out
unfoldable pub new_dup_csv_writer : CsvWriter → Bool × List Row
new_dup_csv_writer csv =
    if csv.writes dup_csv_header []
    then (csv.flushes (dup_csv_header ∷ []), dup_csv_header ∷ [])
    else (false, [])

-- PrintDupCSV
unfoldable pub print_dup_csv : CsvWriter → List Text → Order → List DupGroup → Bool × List Row
unfolding new_dup_csv_writer write_groups
print_dup_csv csv roots order groups =
    let (ok, rows) = new_dup_csv_writer csv in
    let report = write_groups csv roots order groups rows in if ok then report else (false, rows)
