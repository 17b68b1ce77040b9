-- ===== src/Output.antt =====
-- output.go: duplicates in the formats for a reader. The CSV writer is that of the report, the encoder of
-- JSON is a parameter, and so are the float64 numbers of FormatSize. What is written before an error
-- or a panic is not kept.
pub mod Simple
use dup_detector.Prelude.{
  ℕ, suc, ◌+◌, Bool, true, false, ◌&&◌, Option, none, some, List, [], ◌∷◌, ◌++◌, map, flat_map,
  if◌then◌else◌, length, list_eq,
}
use dup_detector.Prelude.Runs.{Run, done, failed, panic, ◌>>=◌}
use dup_detector.Text.{Text, codes, join}
use dup_detector.Text.Decimals.{decimal, signed_decimal}
use dup_detector.Files.{ScannedFile, DupGroup, TreeDupPair}
use dup_detector.Sizes.{Floats, format_size}
use dup_detector.Report.{Row, CsvWriter}

-- jsonGroup
pub record JsonGroup : Type 0 where
  pub size : ℕ
  pub files : List Text

-- jsonTree
pub record JsonTree : Type 0 where
  pub total_size : ℕ
  pub file_count : ℕ
  pub dirs : List Text

-- Encode, which can fail
pub record JsonEncoder : Type 0 where
  pub groups : List JsonGroup → Option Text
  pub trees : List JsonTree → Option Text

-- what a format comes to: a text, or rows of CSV
pub data Shown : Type 0 where
  text : Text → Shown
  table : List Row → Shown

abbrev pub newline : ℕ
newline = 10

-- the paths of a group
unfoldable pub group_paths : DupGroup → List Text
group_paths g = map (λ f. f.path) g.files

-- a line
unfoldable pub line : Text → Text
line s = s ++ newline ∷ []

-- printSimple
unfoldable pub print_simple : List DupGroup → Text
unfolding flat_map line group_paths
print_simple [] = []
print_simple (g ∷ groups) = flat_map line (group_paths g) ++ newline ∷ print_simple groups

-- the CSV writer ignores what Write returns; Error tells of any error of a Write or of Flush
unfoldable pub put_rows : CsvWriter → List Row → Bool → List Row → Run Shown
put_rows csv [] ok rows = if ok && csv.flushes rows then done (table rows) else failed
put_rows csv (row ∷ more) ok rows =
    let written = put_rows csv more ok (rows ++ row ∷ []) in
    let lost = put_rows csv more false rows in if csv.writes row rows then written else lost

unfoldable pub encoded : Option Text → Run Shown
encoded none = failed
encoded (some s) = done (text s)

-- printJSON
unfoldable pub print_json : JsonEncoder → List DupGroup → Run Shown
unfolding encoded group_paths
print_json json groups =
    encoded (json.groups (map (λ g. record { size = g.size; files = group_paths g }) groups))

-- the files of a group, of which the second argument is the size
unfoldable pub column_lines : List ScannedFile → Text → Text
unfolding line decimal flat_map
column_lines (a ∷ b ∷ []) size = line (a.path ++ codes "  |  " ++ b.path ++ codes "  |  " ++ size)
column_lines files size =
    line (codes "# " ++ decimal (length files) ++ codes " copies, " ++ size ++ codes " each")
    ++ flat_map (λ f. line (codes "  " ++ f.path)) files

module _ {F : Type 0} (floats : Floats F) where
  -- FormatSize, whose index outside the units is a panic
  unfoldable pub human : ℕ → Run Text
  unfolding format_size
  human n = elim (format_size floats n) [ none ↦ panic | some s ↦ done s ]

  -- printColumns
  unfoldable pub print_columns : List DupGroup → Run Text
  unfolding column_lines human
  print_columns [] = done []
  print_columns (g ∷ groups) = human g.size >>= λ size.
      print_columns groups >>= λ rest. done (column_lines g.files size ++ rest)

  -- the rows of printCSV
  unfoldable pub group_rows : List DupGroup → Run (List Row)
  unfolding signed_decimal human join group_paths
  group_rows [] = done []
  group_rows (g ∷ groups) = human g.size >>= λ size. group_rows groups >>= λ rest.
      done ((signed_decimal g.size ∷ size ∷ join (group_paths g) b'|' ∷ []) ∷ rest)

  -- printCSV
  unfoldable pub print_csv : CsvWriter → List DupGroup → Run Shown
  unfolding group_rows put_rows
  print_csv csv groups = group_rows groups >>= λ rows.
      put_rows csv ((codes "size_bytes" ∷ codes "size_human" ∷ codes "files" ∷ []) ∷ rows) true []

  -- PrintGroups
  unfoldable pub print_groups : CsvWriter → JsonEncoder → List DupGroup → Text → Run Shown
  unfolding print_simple print_columns print_csv print_json
  print_groups csv json groups format =
      if list_eq format (codes "columns")
      then (print_columns groups >>= λ s. done (text s))
      else if list_eq format (codes "json")
      then print_json json groups
      else if list_eq format (codes "csv")
      then print_csv csv groups
      else if list_eq format (codes "simple")
      then done (text (print_simple groups))
      else failed

  -- the lines of the pairs from the i-th on
  unfoldable pub tree_lines : ℕ → List TreeDupPair → Run Text
  unfolding human line decimal
  tree_lines i [] = done []
  tree_lines i (p ∷ pairs) = human p.total_size >>= λ size. tree_lines (i + 1) pairs >>= λ rest.
      done (
        line (
          codes "# [T"
          ++ decimal (i + 1)
          ++ codes "] "
          ++ size
          ++ codes "  ("
          ++ decimal p.file_count
          ++ codes " files)")
        ++ line (codes "  " ++ p.dir_a)
        ++ line (codes "  " ++ p.dir_b)
        ++ rest)

  unfoldable pub tree_rows : List TreeDupPair → Run (List Row)
  unfolding signed_decimal human decimal
  tree_rows [] = done []
  tree_rows (p ∷ pairs) = human p.total_size >>= λ size. tree_rows pairs >>= λ rest. done (
      (codes "tree"
        ∷ signed_decimal p.total_size
        ∷ size
        ∷ decimal p.file_count
        ∷ p.dir_a
        ∷ p.dir_b
        ∷ [])
      ∷ rest)

  -- PrintTreeDups
  unfoldable pub print_tree_dups : CsvWriter → JsonEncoder → List TreeDupPair → Text → Run Shown
  unfolding tree_lines tree_rows put_rows encoded line
  print_tree_dups csv json pairs format =
      if list_eq format (codes "json")
      then encoded (
          json.trees (
            map
              (λ p. record {
                total_size = p.total_size;
                file_count = p.file_count;
                dirs = p.dir_a ∷ p.dir_b ∷ [];
              })
              pairs))
      else if list_eq format (codes "csv")
      then (tree_rows pairs >>= λ rows.
          put_rows csv
            ((codes "type"
                ∷ codes "size_bytes"
                ∷ codes "size_human"
                ∷ codes "file_count"
                ∷ codes "dir_a"
                ∷ codes "dir_b"
                ∷ [])
              ∷ rows)
            true [])
      else tree_lines 0 pairs >>= λ s.
          done (text (line (codes "# === Tree duplicates ===") ++ s ++ newline ∷ []))
