-- ===== src/Run/ReadOnly.antt =====
-- Runs of main.go that only report: with --dry-run, with --no-interactive, or on a kept inventory.
use dup_detector.Prelude.{
  ℕ, Memᴰ, ltb, none, Option-cases, mem-append_cases, Bool, then_branch, else_branch, ◌≡◌, sym, ap,
  ◌∙◌, ◌⊎◌, inl, inr, true, false, not, ◌&&◌, Option, none, some, List, [], ◌==◌, arith, length,
  list_eq, Bool-cases,
}
use dup_detector.Prelude.Runs.{done_inj, done, >>=-eq-done}
use dup_detector.Text.{Text}
use dup_detector.Files.{ScannedFile, DupGroup, TreeDupPair}
use dup_detector.Options.{Options, read_options}
use dup_detector.TreeDup.Stored.{of_option}
use dup_detector.TreeDup.Incremental.Checked.{lookup_stored}
use dup_detector.Cleanup.Dispose.{State}
use dup_detector.Cleanup.Headless.DryRun.{headless_delete-dry_run}
use mathlib.Core.Path.{subst}
use dup_detector.Files.{signed_rank}
use dup_detector.Store.{FileStore}
use dup_detector.Store.Kept.{
  store_files, close, same_file_path, open_file_store, clean_stale_stores_iff, DatabaseFile,
}
use dup_detector.Run.{
  store_path, own_files, removed_files, reused, fresh, Inventory, prints, Machine, Inventory,
  Progress, Outcome, config_of, open_inventory, overlaps, delete_found, conclude, end_report,
  find_groups, started, open_report, inventory_rows, early_trees, detect_and_delete, run,
}

close-within :
    (path : Text) (keep : Bool) {p : Text} → Memᴰ p (close path keep) → Memᴰ p (store_files path)
unfolding close
close-within path true m = elim m [ ]
close-within path false m = m

of_option-done : {A : Type 0} (o : Option A) {a : A} → of_option o ≡ done a → o ≡ some a
of_option-done none h = absurd (ground arith)
of_option-done (some b) h = ground arith

-- The options or a kept inventory make the run one that only reports.
abbrev pub IsReadOnly : {F W : Type 0} → Machine F W → Options → Type 0
IsReadOnly machine o =
    (o.dry_run ≡ true)
    ⊎ ((o.no_interactive ≡ true)
        ⊎ ((list_eq o.scan_store [] ≡ false)
            × (kept : DatabaseFile) × (machine.kept_store o.scan_store ≡ some kept)))

module _ {F W : Type 0} (machine : Machine F W) (o : Options) where
  module _ (roots : List Text) (rows : List ScannedFile) where
    delete_found-dry_run :
        (tree_pairs : List TreeDupPair) (groups : List DupGroup) (w : W) (s : State W)
        → o.dry_run ≡ true
        → delete_found machine o roots rows tree_pairs groups w ≡ done s
        → s.world ≡ w
    unfolding delete_found
    delete_found-dry_run tree_pairs groups w s dry h = elim (Bool-cases o.headless) [
      | inl e ↦
          let (blocks, rest) = overlaps machine o roots rows groups in
          headless_delete-dry_run machine.disk (config_of o) dry
            (lookup_stored machine.database machine.order rows) tree_pairs blocks rest w s
            (of_option-done _ (then_branch o.headless _ e h))
      | inr e ↦
          let stopped : not o.dry_run ≡ false = ground (arith, dry) in
          let q = else_branch (not o.dry_run) _ stopped (else_branch o.headless _ e h) in
          ap (λ (x : State W). x.world) (sym (done_inj q))
    ]

    conclude-world :
        (p : Progress) (w : W) (out : Outcome W)
        → (o.dry_run ≡ true) ⊎ (o.no_interactive ≡ true)
        → conclude machine o roots rows p w ≡ done out
        → out.state.world ≡ w
    unfolding conclude
    conclude-world p w out only h =
        let tree_pairs = p.trees.0.confirmed in
        let world_of : Outcome W → W = λ x. x.state.world in
        elim (Bool-cases (length p.groups == 0 && length tree_pairs == 0)) [
          | inl e ↦ ap world_of (sym (done_inj (then_branch _ _ e h)))
          | inr e ↦ elim (Bool-cases o.no_interactive) [
            | inl n ↦
                let (report, q, end) =
                  >>=-eq-done (end_report machine o roots rows p) _
                    (then_branch o.no_interactive _ n (else_branch _ _ e h)) in
                ap world_of (sym (done_inj end))
            | inr n ↦
                let last = else_branch o.no_interactive _ n (else_branch _ _ e h) in
                elim (Bool-cases (prints machine o tree_pairs p.groups)) [
                  | inr b ↦ absurd (
                      let bad =
                        then_branch (not (prints machine o tree_pairs p.groups)) _
                          (ground (arith, b)) last in
                      ground (arith, bad))
                  | inl b ↦
                      let (s, q, end) =
                        >>=-eq-done (delete_found machine o roots rows tree_pairs p.groups w) _ (
                          else_branch (not (prints machine o tree_pairs p.groups)) _
                            (ground (arith, b)) last) in
                      let dry : o.dry_run ≡ true = elim only [
                        | inl d ↦ d
                        | inr c ↦ absurd (ground (arith, c, n))
                      ] in
                      ap world_of (sym (done_inj end))
                      ∙ delete_found-dry_run tree_pairs p.groups w s dry q
                ]
          ]
        ]

  reused_only :
      (inventory : Inventory)
      → IsReadOnly machine o
      → open_inventory machine o ≡ done inventory
      → (o.dry_run ≡ true) ⊎ (o.no_interactive ≡ true)
  unfolding open_inventory
  reused_only inventory (inl dry) h = inl dry
  reused_only inventory (inr (inl report)) h = inr report
  reused_only inventory (inr (inr (named, kept, there))) h = elim (Bool-cases o.dry_run) [
    | inl e ↦ inl e
    | inr e ↦ elim (Bool-cases o.no_interactive) [
      | inl n ↦ inr n
      | inr n ↦
          let opened = else_branch (list_eq o.scan_store []) _ named h in
          let refused = rw (there, n, e) at opened in absurd (ground (arith, refused))
    ]
  ]

  -- The path is a file of an inventory that a run left behind: the inventory has the id of a process in its
  -- name that does not run, and is not the one that this run is about to use.
  abbrev pub IsLeftOver : Text → Type 0
  IsLeftOver path =
      (m : Text) × (pid : ℕ) × Memᴰ m machine.old_stores
      × Memᴰ path (store_files m)
      × (machine.processes.scan_pid m ≡ some pid)
      × (ltb (signed_rank 0) (signed_rank pid) && machine.processes.is_running pid ≡ false)
      × (not (list_eq (store_path machine o) [])
            && same_file_path machine.processes m (store_path machine o)
          ≡ false)

  -- The path is a file of the inventory that this run makes, where none was kept.
  abbrev pub IsOwn : Text → Type 0
  IsOwn path =
      ((list_eq o.scan_store [] ≡ true) ⊎ (machine.kept_store o.scan_store ≡ none))
      × Memᴰ path (store_files (store_path machine o))

  not_kept :
      (s : FileStore)
      → open_inventory machine o ≡ done (fresh s)
      → (list_eq o.scan_store [] ≡ true) ⊎ (machine.kept_store o.scan_store ≡ none)
  unfolding open_inventory
  not_kept s h = elim (Bool-cases (list_eq o.scan_store [])) [
    | inl e ↦ inl e
    | inr e ↦ elim (Option-cases (machine.kept_store o.scan_store)) [
      | inl d ↦ inr d
      | inr (file, d) ↦
          let opened = rw d at (else_branch (list_eq o.scan_store []) _ e h) in
          elim (Bool-cases (not o.no_interactive && not o.dry_run)) [
            | inl c ↦ absurd (
                let bad = then_branch (not o.no_interactive && not o.dry_run) _ c opened in
                ground (arith, bad))
            | inr c ↦
                let (rows, q, last) =
                  >>=-eq-done (open_file_store file) _
                    (else_branch (not o.no_interactive && not o.dry_run) _ c opened) in
                absurd (let bad = done_inj last in ground (arith, bad))
          ]
    ]
  ]

  own_files-IsOwn :
      (inventory : Inventory) (path : Text)
      → open_inventory machine o ≡ done inventory
      → Memᴰ path (own_files machine o inventory)
      → IsOwn path
  unfolding own_files
  own_files-IsOwn (reused rows) path h m = elim m [ ]
  own_files-IsOwn (fresh s) path h m = (
    not_kept s h,
    elim (mem-append_cases (store_files (store_path machine o)) _ m) [
      | inl k ↦ k
      | inr k ↦ close-within (store_path machine o) (not (list_eq o.scan_store [])) k
    ],
  )

  -- A run with --dry-run or --no-interactive, or on an inventory that an earlier run kept, disposes of no
  -- file and prunes no directory, if it comes to its end: also in headless mode, and whatever it found.
  -- The files of inventories that it removes are those that runs left behind which ended, and those of
  -- the inventory that it makes itself, where none was kept.
  pub run-unchanged :
      (args : List Text) (w : W) (out : Outcome W) (removed : List Text)
      → IsReadOnly machine o
      → run machine o args w ≡ done (out, removed)
      → (out.state.world ≡ w) × ((path : Text) → Memᴰ path removed → IsLeftOver path ⊎ IsOwn path)
  unfolding run detect_and_delete removed_files
  run-unchanged args w out removed only h =
      let (st, q1, h1) = >>=-eq-done (read_options machine.host o args) _ h in
      let (inventory, q2, h2) = >>=-eq-done (open_inventory machine o) _ h1 in
      let (report, q3, h3) = >>=-eq-done (open_report machine o) _ h2 in
      let (rows, q4, h4) = >>=-eq-done (inventory_rows machine st.scan st.roots inventory) _ h3 in
      let (end, q5, last) =
        >>=-eq-done (detect_and_delete machine o st.roots rows st.scan report w) _ h4 in
      let (early, q6, h6) = >>=-eq-done (early_trees machine o st.roots rows st.scan) _ q5 in
      let (p, q7, h7) =
        >>=-eq-done (find_groups machine o st.roots rows (started early report)) _ h6 in
      let both = done_inj last in
      let ended : end ≡ out = ap (λ (x : Outcome W × List Text). x.0) both in
      (
        ap (λ (x : Outcome W). x.state.world) (sym ended)
            ∙ conclude-world st.roots rows p w end (reused_only inventory only q2) h7,
        λ path m.
            let gone : removed_files machine o inventory ≡ removed =
              ap (λ (x : Outcome W × List Text). x.1) both in
            elim (mem-append_cases _ _ (subst (Memᴰ path) (sym gone) m)) [
              | inl k ↦ inl (
                  (clean_stale_stores_iff machine.processes machine.old_stores
                      (store_path machine o) path).0
                    k)
              | inr k ↦ inr (own_files-IsOwn inventory path q2 k)
            ],
      )
