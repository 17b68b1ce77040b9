-- ===== src/Examples/Running.antt =====
-- Whole runs of main.go on an inventory of two copies, and runs of its parts: options, roots, the report
-- and sizes.
use dup_detector.Prelude.{
  ◌==◌, arith, sym, if◌then◌else◌, list_eq, list_eq_iff, Bool-cases, some_inj, mem-cons_cases, ℕ,
  ◌≡◌, ◌≢◌, refl, ◌⊎◌, inl, inr, true, false, not, ◌&&◌, ◌||◌, none, some, List, [], ◌∷◌, ◌++◌,
  flat_map, map, Memᴰ, Permᴰ, arith, get_elem?, in_order, text_eq, nat_eq,
}
use dup_detector.Prelude.Grouping.{group, value_at}
use dup_detector.Prelude.Runs.{◌>>=◌, done}
use dup_detector.Text.{Text, codes, slash, text_lt, is_subdir}
use dup_detector.Text.Paths.{clean}
use dup_detector.Files.{FilterRule, ScannedFile, DupGroup, ScanConfig}
use dup_detector.Sizes.{Floats, format_size}
use dup_detector.Sizes.Units.{IsUnitOf, format_size-IsUnitOf}
use dup_detector.Options.{
  Settings, is_cross_root, default_excludes, Options, Host, root_excludes, build_rules, roots_of,
  read_options,
}
use dup_detector.Options.Rules.{matched_by, build_rules-should_exclude}
use dup_detector.Options.Attribution.{IsCleaned, walk_of, roots_of-apart, root_excludes-slash}
use mathlib.Core.Path.{subst}
use dup_detector.Output.{JsonEncoder, group_paths, print_simple}
use dup_detector.Output.Simple.{IsOneLine, read_simple, read_simple-print_simple}
use dup_detector.Report.{CsvWriter, dup_csv_header, csv_row, print_dup_csv}
use dup_detector.Report.Rows.{rows_of, IsPart, print_dup_csv-IsPart}
use dup_detector.Report.Ids.{IsGroup, first_mtime, group_id-tells_apart}
use dup_detector.Scan.{empty, leave, verdict}
use dup_detector.Detect.{mtime_dups_store}
use dup_detector.Filter.{should_exclude}
use dup_detector.Store.{by_path, count_under_dir}
use dup_detector.TreeDup.Stored.{memo_at, find_tree_dups_by_hash_store}
use dup_detector.TreeDup.Incremental.{add_all_confirmed, new_tree_dup_state, add_groups}
use dup_detector.TreeDup.Incremental.Checked.{lookup_stored, add_groups_checked}
use dup_detector.TreeDup.Incremental.Checked.Agrees.{IsCounted, add_groups_checked-add_groups}
use dup_detector.Cleanup.Actions.{build_cleanup_actions, reresolve_action, apply_auto}
use dup_detector.Cleanup.Cadence.{find_cadence}
use dup_detector.Cleanup.Headless.{headless_delete, headless_apply}
use dup_detector.Overlap.{build_overlap_blocks}
use dup_detector.Cleanup.Dispose.{dispose_file, any_alive}
use dup_detector.Store.Kept.{same_file_path, Processes, store_files, DatabaseFile}
use dup_detector.Run.{
  removed_files, prints, Machine, Outcome, reused, untouched, early_trees, open_inventory,
  inventory_rows, detect_and_delete, run,
}
use dup_detector.Run.ReadOnly.{IsLeftOver, IsOwn, run-unchanged}
use dup_detector.Run.Reported.{groups_found, run-reports}
use dup_detector.Run.Survivors.{detect_and_delete-survivor}
use dup_detector.Examples.{a_one, counting_disk}
use dup_detector.Examples.Finding.{all_answer}
use dup_detector.Examples.Storing.{healthy}

abbrev whole_floats : Floats ℕ
whole_floats = record {
  parse = λ s. none;
  is_negative = λ f. false;
  scaled = λ f m. f;
  one_decimal = λ bytes div. codes "1.0";
}

abbrev host : Host ℕ
host = record {
  abs = λ path. if list_eq (clean path) path then some path else none;
  parse_duration = λ s. none;
  parse_int = λ s. none;
  rule_lines = λ path. none;
  floats = whole_floats;
}

abbrev sturdy_csv : CsvWriter
sturdy_csv = record { writes = λ row rows. true; flushes = λ rows. true; utc_time = λ t. codes "t" }

-- a copy of the file `/a/x` under another name
abbrev b_copy : ScannedFile
b_copy = record {
  path = codes "/b/w";
  rel_path = codes "w";
  size = 5;
  mod_time = 9;
  inode = 2;
  source = 1;
}

abbrev two_copies : List ScannedFile
two_copies = a_one ∷ b_copy ∷ []

abbrev no_json : JsonEncoder
no_json = record { groups = λ groups. none; trees = λ pairs. none }

abbrev kept_copies : DatabaseFile
kept_copies = record {
  opens = true;
  rows = some two_copies;
  indexes = some (codes "idx_path" ∷ codes "idx_size" ∷ []);
}

-- every inventory is of process 5, and process 4 runs
abbrev one_process : Processes
one_process = record {
  abs = λ path. some path;
  scan_pid = λ path. some 5;
  is_running = λ pid. pid == 4;
}

abbrev machine : Machine ℕ ℕ
machine = record {
  host = host;
  rel = λ root path. some path;
  tree = λ root. record { path = root; key = none; below = empty };
  database = healthy;
  order = in_order;
  walk_count = λ dir. some 1;
  hash = λ f. some (codes "h");
  kept_store = λ path. some kept_copies;
  queries = all_answer;
  processes = one_process;
  old_stores = codes "/c/dup-detector-scan-5.db" ∷ [];
  scan_path = codes "/c/dup-detector-scan-4.db";
  csv = sturdy_csv;
  stdout = sturdy_csv;
  json = no_json;
  disk = counting_disk;
  lines = [];
}

abbrev plain_options : Options
plain_options = record {
  format = codes "simple";
  checksum = false;
  recursive = true;
  dry_run = false;
  headless = false;
  no_interactive = false;
  scan_store = codes "/s";
  trash = false;
  remove_by_glob = [];
  excludes = codes "*.o" ∷ [];
  exclude_from = [];
  includes = codes "a.o" ∷ [];
  include_from = [];
  min_size_str = [];
  max_size_str = [];
  one_file_system = false;
  additional_roots = [];
  within_root = false;
  no_overlap = false;
  overlap_block_size = 30;
  min_overlap = 2;
  overlap_depth = 1;
  cache_max_age = [];
}

abbrev headless_options : Options
headless_options = record plain_options { headless = true }

abbrev preview_options : Options
preview_options = record headless_options { dry_run = true }

abbrev report_options : Options
report_options = record plain_options { no_interactive = true; checksum = true }

host-IsCleaned : IsCleaned host
host-IsCleaned path abs e = elim (Bool-cases (list_eq (clean path) path)) [
  | inr no_clean ↦ absurd (let h = rw no_clean at e in ground (arith, h))
  | inl is_clean ↦
      let same : path ≡ abs = some_inj (rw is_clean at e) in
      rw (← same) ((list_eq_iff (clean path) path).0 is_clean)
]

-- the built-in exclude, then the include, then the exclude
abbrev three_rules : List FilterRule
three_rules =
    record { pattern = codes ".flexiblefs"; exclude = true }
    ∷ record { pattern = codes "a.o"; exclude = false }
    ∷ record { pattern = codes "*.o"; exclude = true }
    ∷ []

abbrev two_roots : List Text
two_roots = codes "/a" ∷ codes "/b" ∷ []

abbrev all_files : ScanConfig
all_files = record {
  recursive = true;
  one_file_system = false;
  min_size = 0;
  max_size = 0;
  rules = [];
}

abbrev copies_group : DupGroup
copies_group = record { size = 5; hash = []; files = two_copies }

detect_and_delete-survivor_example :
    (out : Outcome ℕ) × (detect_and_delete machine headless_options two_roots two_copies all_files
        [] 0
      ≡ done out)
    × (any_alive two_copies out.state.deleted ≡ true)
unfolding early_trees group memo_at by_path text_lt count_under_dir find_tree_dups_by_hash_store
    mtime_dups_store is_cross_root prints
detect_and_delete-survivor_example =
    detect_and_delete-survivor machine headless_options two_roots two_copies all_files [] 0
      (copies_group ∷ []) copies_group refl refl refl refl refl (refl, (refl, tt)) refl
      (Memᴰ.head refl)

-- a preview of the headless run counts the second copy as deleted
abbrev preview : Outcome ℕ
preview = record { report = []; state = record { deleted = codes "/b/w" ∷ []; world = 0 } }

run-unchanged_example :
    (preview.state.world ≡ 0)
    × ((path : Text)
        → Memᴰ path (store_files (codes "/c/dup-detector-scan-5.db"))
        → IsLeftOver machine preview_options path ⊎ IsOwn machine preview_options path)
unfolding run read_options find_tree_dups_by_hash_store group mtime_dups_store is_cross_root
    headless_delete build_cleanup_actions add_all_confirmed new_tree_dup_state build_overlap_blocks
    value_at reresolve_action find_cadence headless_apply apply_auto dispose_file clean flat_map
    same_file_path
run-unchanged_example =
    run-unchanged machine preview_options two_roots 0 preview
      (store_files (codes "/c/dup-detector-scan-5.db")) (inl refl) refl

abbrev settings : Settings
settings = record {
  scan = record all_files { rules = three_rules };
  max_age = 0;
  roots = two_roots;
}

run-reports_example : run machine report_options two_roots 0 ≡ (
    groups_found machine report_options two_roots two_copies >>= λ groups. done (
      record {
        report = dup_csv_header ∷ flat_map (rows_of sturdy_csv two_roots in_order) groups;
        state = untouched {W = ℕ} 0;
      },
      removed_files machine report_options (reused two_copies),
    ))
unfolding read_options clean open_inventory inventory_rows
run-reports_example =
    run-reports machine report_options two_roots 0 settings (reused two_copies) two_copies refl
      (λ row rows. refl, λ rows. refl) refl refl refl

roots_of-apart_example :
    (verdict
        (λ root path. some path)
        (walk_of host all_files none 0 (codes "/a") (codes "/a" ∷ codes "/a/d" ∷ []))
        (codes "/a/d/x")
      ≡ leave)
    ⊎ (verdict
          (λ root path. some path)
          (walk_of host all_files none 1 (codes "/a/d") (codes "/a" ∷ codes "/a/d" ∷ []))
          (codes "/a/d/x")
        ≡ leave)
unfolding roots_of clean is_subdir
roots_of-apart_example =
    roots_of-apart host plain_options (codes "/a" ∷ codes "/a/d" ∷ [])
      (codes "/a" ∷ codes "/a/d" ∷ []) 0 1 (codes "/a") (codes "/a/d") (codes "/a/d/x")
      (λ root path. some path) all_files none none host-IsCleaned refl refl refl
      (λ e. omega (arith, e)) refl (λ q. ground (arith, q), codes "d/x", refl)
      (λ q. ground (arith, q), codes "x", refl)

root_excludes-slash_example :
    root_excludes 0 (slash ∷ []) 0 ((slash ∷ []) ∷ codes "/home" ∷ []) ≡ []
root_excludes-slash_example = root_excludes-slash 0 0 ((slash ∷ []) ∷ codes "/home" ∷ []) (λ r m.
    elim (mem-cons_cases m) [
      | inl e ↦ inl e
      | inr t ↦ elim (mem-cons_cases t) [
        | inl e ↦ inr (b'h', codes "ome", e, refl)
        | inr u ↦ elim u [ ]
      ]
    ])

build_rules-should_exclude_example : should_exclude (codes "a.o") three_rules ≡ (
    matched_by true (codes "*.o" ∷ []) (codes "a.o")
    || (matched_by true default_excludes (codes "a.o")
        && not (matched_by false (codes "a.o" ∷ []) (codes "a.o"))))
unfolding build_rules
build_rules-should_exclude_example =
    build_rules-should_exclude host plain_options three_rules (codes "a.o") refl refl refl

print_dup_csv-IsPart_example :
    IsPart sturdy_csv two_roots in_order []
      (dup_csv_header ∷ flat_map (rows_of sturdy_csv two_roots in_order) (copies_group ∷ []))
      (print_dup_csv sturdy_csv two_roots in_order (copies_group ∷ []))
    × ((g : DupGroup)
        → Permᴰ
            (rows_of sturdy_csv two_roots in_order g)
            (map (csv_row sturdy_csv two_roots g) g.files))
print_dup_csv-IsPart_example =
    print_dup_csv-IsPart sturdy_csv two_roots in_order (copies_group ∷ [])

format_size-IsUnitOf_example :
    (div : ℕ) × (exp : ℕ) × (unit : ℕ) × IsUnitOf 3000000 (div, exp)
    × (get_elem? (codes "KMGTPE") exp ≡ some unit)
    × (format_size whole_floats 3000000
        ≡ some (whole_floats.one_decimal 3000000 div ++ b' ' ∷ unit ∷ b'B' ∷ []))
format_size-IsUnitOf_example = format_size-IsUnitOf whole_floats 3000000 (omega arith) (omega arith)

copies-IsGroup : IsGroup copies_group
copies-IsGroup = (omega arith, omega arith)

group_id-tells_apart_example :
    (copies_group.hash ≡ copies_group.hash)
    × ((copies_group.hash ≢ [])
        ⊎ ((copies_group.size ≡ copies_group.size)
            × (first_mtime copies_group.files ≡ first_mtime copies_group.files)))
group_id-tells_apart_example =
    group_id-tells_apart copies_group copies_group copies-IsGroup copies-IsGroup refl refl

add_groups_checked-add_groups_example :
    ((add_groups_checked healthy in_order two_copies
        (copies_group ∷ [])
        true
        (new_tree_dup_state, [])).0
      ≡ (add_groups in_order
          (copies_group ∷ [])
          (lookup_stored healthy in_order two_copies)
          true
          new_tree_dup_state).0)
    × ((add_groups_checked healthy in_order two_copies
          (copies_group ∷ [])
          true
          (new_tree_dup_state, [])).1.0
        ≡ (add_groups in_order
            (copies_group ∷ [])
            (lookup_stored healthy in_order two_copies)
            true
            new_tree_dup_state).1)
    × IsCounted healthy in_order two_copies
        (add_groups_checked healthy in_order two_copies
          (copies_group ∷ [])
          true
          (new_tree_dup_state, [])).1.1
unfolding memo_at
add_groups_checked-add_groups_example =
    add_groups_checked-add_groups healthy in_order two_copies (λ dir. (refl, refl))
      (copies_group ∷ []) true new_tree_dup_state [] (λ dir n e. ground (arith, e))

copy_paths-IsOneLine : (p : Text) → Memᴰ p (codes "/a/x" ∷ codes "/b/w" ∷ []) → IsOneLine p
copy_paths-IsOneLine p (Memᴰ.head e) = subst IsOneLine (sym e) (λ q. ground (arith, q), refl)
copy_paths-IsOneLine p (Memᴰ.tail (Memᴰ.head e)) =
    subst IsOneLine (sym e) (λ q. ground (arith, q), refl)
copy_paths-IsOneLine p (Memᴰ.tail (Memᴰ.tail m)) = elim m [ ]

copies_group-IsOneLine :
    (g : DupGroup) → Memᴰ g (copies_group ∷ []) → (p : Text) → Memᴰ p (group_paths g) → IsOneLine p
unfolding group_paths
copies_group-IsOneLine g (Memᴰ.head e) p m =
    copy_paths-IsOneLine p (subst (λ h. Memᴰ p (group_paths h)) e m)
copies_group-IsOneLine g (Memᴰ.tail m) p k = elim m [ ]

read_simple-print_simple_example :
    read_simple (print_simple (copies_group ∷ [])) ≡ (codes "/a/x" ∷ codes "/b/w" ∷ []) ∷ []
unfolding group_paths
read_simple-print_simple_example =
    read_simple-print_simple (copies_group ∷ []) copies_group-IsOneLine
