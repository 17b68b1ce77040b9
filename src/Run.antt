-- ===== src/Run.antt =====
-- main.go: run, from the options to the deletions, out of the parts that the other modules model. What
-- the run asks of the machine is a parameter; the MD5 of a file, with or without a cache, is one too.
-- Messages and the profiling endpoint are not modelled.
pub mod ReadOnly
pub mod Reported
pub mod Survivors
use dup_detector.Prelude.{
  ℕ, zero, suc, Bool, true, false, not, ◌&&◌, Option, none, some, List, [], ◌∷◌, ◌++◌, ◌||◌,
  if◌then◌else◌, ltb, ◌==◌, length, list_eq, Order,
}
use dup_detector.Prelude.Runs.{Run, done, failed, panic, ◌>>=◌}
use dup_detector.Text.{Text}
use dup_detector.Files.{ScannedFile, DupGroup, TreeDupPair, DirOverlapBlock, ScanConfig}
use dup_detector.Options.{Options, Host, Settings, read_options, root_excludes, is_cross_root}
use dup_detector.Scan.{Key, Root, scan_to_store}
use dup_detector.Store.Kept.{
  DatabaseFile, Processes, open_file_store, store_files, close, clean_stale_stores,
}
use dup_detector.Store.{Database, FileStore, new_file_store, finalize}
use dup_detector.Detect.{SizeQueries, mtime_dups_store, checksum_dups_store}
use dup_detector.TreeDup.Stored.{
  of_option, find_tree_dups_by_hash_store, verify_tree_pairs_by_content,
}
use dup_detector.TreeDup.Incremental.{TreeDupState, new_tree_dup_state, add_all_confirmed}
use dup_detector.TreeDup.Incremental.Checked.{Counts, lookup_stored, add_groups_checked}
use dup_detector.Overlap.{build_overlap_blocks}
use dup_detector.Overlap.Columns.{virtual_root_of}
use dup_detector.Cleanup.Dispose.{Config, Disk, State}
use dup_detector.Cleanup.Headless.{headless_delete}
use dup_detector.Cleanup.Prompt.{interactive_delete}
use dup_detector.Output.{JsonEncoder, Shown, print_groups, print_tree_dups}
use dup_detector.Report.{Row, CsvWriter, root_of, write_groups, new_dup_csv_writer}

-- the trees on disk by their roots, the walk of the disk that counts files, the MD5 of a file, for a path
-- where a file is what it holds as a database, the processes, the inventories that Glob finds, the path
-- of this run's own, the writers of the report and of the output, and the user's lines
pub record Machine (F W : Type 0) : Type 1 where
  pub host : Host F
  pub rel : Text → Text → Option Text
  pub tree : Text → Root
  pub database : Database
  pub order : Order
  pub walk_count : Text → Option ℕ
  pub hash : ScannedFile → Option Text
  pub queries : SizeQueries
  pub kept_store : Text → Option DatabaseFile
  pub processes : Processes
  pub old_stores : List Text
  pub scan_path : Text
  pub csv : CsvWriter
  pub stdout : CsvWriter
  pub json : JsonEncoder
  pub disk : Disk W
  pub lines : List Text

-- the rows of an inventory that was kept, or the store of a scan to come
pub data Inventory : Type 0 where
  reused : List ScannedFile → Inventory
  fresh : FileStore → Inventory

-- allGroups, treeState with the counts it remembers, and the report so far
pub record Progress : Type 0 where
  pub groups : List DupGroup
  pub trees : TreeDupState × Counts
  pub report : List Row

pub record Outcome (W : Type 0) : Type 0 where
  pub report : List Row
  pub state : State W

abbrev pub config_of : Options → Config
config_of o = record { dry_run = o.dry_run; trash = o.trash; remove_by_glob = o.remove_by_glob }

abbrev pub untouched : {W : Type 0} → W → State W
untouched w = record { deleted = []; world = w }

-- the state of the detection once the early trees are confirmed
abbrev pub started : List TreeDupPair → List Row → Progress
started early report = record {
  groups = [];
  trees = (add_all_confirmed early new_tree_dup_state, []);
  report = report;
}

-- colOf: the roots, or the directories below the only root
unfoldable pub column_of : Options → List Text → ScannedFile → Text
unfolding root_of virtual_root_of
column_of o [] f = []
column_of o (root ∷ []) f = virtual_root_of f.path root o.overlap_depth
column_of o (root ∷ other ∷ roots) f = root_of (root ∷ other ∷ roots) f.source

unfoldable pub is_shown : Run Shown → Bool
is_shown (done s) = true
is_shown failed = false
is_shown panic = false

module _ {F W : Type 0} (machine : Machine F W) where
  unfoldable pub open_inventory : Options → Run Inventory
  unfolding open_file_store
  open_inventory o =
      let created = new_file_store machine.database >>= λ s. done (fresh s) in
      if list_eq o.scan_store [] then created else elim (machine.kept_store o.scan_store) [
        | none ↦ created
        | some opened ↦
            if not o.no_interactive && not o.dry_run
            then failed
            else (open_file_store opened >>= λ rows. done (reused rows))
      ]

  unfoldable pub open_report : Options → Run (List Row)
  open_report o =
      let (ok, rows) = new_dup_csv_writer machine.csv in
      if not o.no_interactive then done [] else if ok then done rows else failed

  -- whether the pairs and the groups, if there are any, are printed; Sizes says why FormatSize has no panic
  unfoldable pub prints : Options → List TreeDupPair → List DupGroup → Bool
  unfolding is_shown print_groups print_tree_dups
  prints o tree_pairs groups =
      let floats = machine.host.floats in
      (length tree_pairs == 0
        || is_shown (print_tree_dups floats machine.stdout machine.json tree_pairs o.format))
      && (length groups == 0
          || is_shown (print_groups floats machine.stdout machine.json groups o.format))

  -- the loop over the roots; the keys of inodes seen are shared
  unfoldable pub scan_roots :
      ScanConfig → List Text → ℕ → List Text → List Key × FileStore → Run (List Key × FileStore)
  unfolding root_excludes
  scan_roots cfg roots i [] st = done st
  scan_roots cfg roots i (root ∷ rest) st =
      scan_to_store machine.database i machine.rel cfg (root_excludes i root 0 roots)
        (machine.tree root) st
      >>= scan_roots cfg roots (suc i) rest

  unfoldable pub inventory_rows : ScanConfig → List Text → Inventory → Run (List ScannedFile)
  inventory_rows cfg roots (reused rows) = if machine.database.totals then done rows else failed
  inventory_rows cfg roots (fresh s) = scan_roots cfg roots 0 roots ([], s) >>= λ st.
      finalize machine.database st.1 >>= λ s'. done s'.committed

  module _ (o : Options) (roots : List Text) (rows : List ScannedFile) where
    -- earlyTrees
    unfoldable pub early_trees : ScanConfig → Run (List TreeDupPair)
    early_trees cfg =
        if o.no_interactive
        then done []
        else (find_tree_dups_by_hash_store machine.database machine.order rows machine.walk_count
              cfg
            >>= λ pairs.
                if o.checksum
                then verify_tree_pairs_by_content (λ f s. (machine.hash f, s))
                    (lookup_stored machine.database machine.order rows) pairs tt
                else done pairs)

    -- the function that takes a batch of groups
    unfoldable pub collect : List DupGroup → Progress → Bool × Progress
    collect batch p =
        let (ok, report) =
          if o.no_interactive
          then write_groups machine.csv roots machine.order batch p.report
          else (true, p.report) in
        let trees =
          if o.no_interactive
          then p.trees
          else (add_groups_checked machine.database machine.order rows batch true p.trees).1 in
        if not ok
        then (false, record p { report = report })
        else (true, record { groups = p.groups ++ batch; trees = trees; report = report })

    -- the detection of groups
    unfoldable pub find_groups : Progress → Run Progress
    unfolding collect
    find_groups p =
        let two_dir = is_cross_root o roots in
        let (ok, p') =
          checksum_dups_store machine.order machine.hash collect machine.queries rows two_dir []
            p in
        let by_hash = if ok then done p' else failed in
        let by_mtime = mtime_dups_store machine.order machine.queries rows two_dir >>= λ groups.
        done (record p { groups = groups }) in
        if o.checksum then by_hash else by_mtime

    -- what --no-interactive has left to write
    unfoldable pub end_report : Progress → Run (List Row)
    end_report p =
        let (ok, report) = write_groups machine.csv roots machine.order p.groups p.report in
        if o.checksum then done p.report else if ok then done report else failed

    unfoldable pub overlaps : List DupGroup → List DirOverlapBlock × List DupGroup
    unfolding column_of
    overlaps groups =
        if o.no_overlap
        then ([], groups)
        else build_overlap_blocks machine.order (column_of o roots) groups o.overlap_block_size
            o.min_overlap

    -- the switch at the end
    unfoldable pub delete_found : List TreeDupPair → List DupGroup → W → Run (State W)
    unfolding overlaps
    delete_found tree_pairs groups w =
        let (blocks, delete_groups) = overlaps groups in
        let lookup = lookup_stored machine.database machine.order rows in
        if o.headless
        then of_option
            (headless_delete machine.disk (config_of o) lookup tree_pairs blocks delete_groups w)
        else if not o.dry_run
        then of_option (
            interactive_delete machine.disk (config_of o) lookup tree_pairs blocks delete_groups
              machine.lines w)
        else done (untouched w)

    -- the summary and the output
    unfoldable pub conclude : Progress → W → Run (Outcome W)
    unfolding end_report delete_found prints
    conclude p w =
        let tree_pairs = p.trees.0.confirmed in
        if length p.groups == 0 && length tree_pairs == 0
        then done (record { report = p.report; state = untouched w })
        else if o.no_interactive
        then (end_report p >>= λ report. done (record { report = report; state = untouched w }))
        else if not (prints o tree_pairs p.groups)
        then failed
        else (delete_found tree_pairs p.groups w >>= λ s.
            done (record { report = p.report; state = s }))

    -- the phases on an inventory
    unfoldable pub detect_and_delete : ScanConfig → List Row → W → Run (Outcome W)
    unfolding early_trees find_groups conclude
    detect_and_delete cfg report w =
        early_trees cfg >>= λ early. find_groups (started early report) >>= λ p. conclude p w

  unfoldable pub store_path : Options → Text
  store_path o = if list_eq o.scan_store [] then machine.scan_path else o.scan_store

  -- the files that NewFileStore and Close remove
  unfoldable pub own_files : Options → Inventory → List Text
  unfolding store_path store_files close
  own_files o (reused rows) = []
  own_files o (fresh s) =
      store_files (store_path o) ++ close (store_path o) (not (list_eq o.scan_store []))

  -- the files of inventories that a run removes
  unfoldable pub removed_files : Options → Inventory → List Text
  unfolding clean_stale_stores own_files
  removed_files o inventory =
      clean_stale_stores machine.processes machine.old_stores (store_path o)
      ++ own_files o inventory

  -- run, with the files of inventories that it removes
  unfoldable pub run : Options → List Text → W → Run (Outcome W × List Text)
  unfolding open_inventory open_report inventory_rows detect_and_delete removed_files
  run o args w = read_options machine.host o args >>= λ st. open_inventory o >>= λ inventory.
      open_report o >>= λ report. inventory_rows st.scan st.roots inventory >>= λ rows.
      detect_and_delete o st.roots rows st.scan report w >>= λ out.
      done (out, removed_files o inventory)
