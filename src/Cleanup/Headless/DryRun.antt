-- ===== src/Cleanup/Headless/DryRun.antt =====
-- A headless run (headless.go) with --dry-run, down to the disk calls that it does not make.
use dup_detector.Prelude.{
  some_inj, ℕ, ◌-◌, ◌≡◌, refl, sym, ap, ◌∙◌, inl, inr, Bool, true, false, not, ◌&&◌, Option, some,
  List, [], ◌∷◌, arith, text_eq, has, if◌then◌else◌, ltb, length, get_elem?, list_eq, Bool-cases,
  Option-cases,
}
use dup_detector.Text.{Text}
use dup_detector.Files.{ScannedFile, DupGroup, TreeDupPair, OverlapItem, DirOverlapBlock, DirLookup}
use dup_detector.Glob.{match_glob, select_by_glob}
use dup_detector.Cleanup.Dispose.{
  Config, Disk, State, any_alive, dispose_file, dispose_each, delete_tree, delete_item_side,
  delete_items_side, delete_overlap_side, paths_of,
}
use dup_detector.Cleanup.Actions.{
  Action, tree, file_group, dir_overlap, items, range_from, remove_live, dispose_at,
  delete_trees_at, apply_indices, apply_auto, apply_glob_removal, reresolve_action,
  build_cleanup_actions,
}
use dup_detector.Cleanup.Headless.{headless_apply, headless_loop, headless_delete}

module _ {W : Type 0} (disk : Disk W) (cfg : Config) (dry : cfg.dry_run ≡ true) where
  dispose_file-world :
      (path : Text) (s : State W) → (dispose_file disk cfg path s).1.world ≡ s.world
  unfolding dispose_file
  dispose_file-world path s = ground (arith, dry)

  dispose_each-world :
      (files : List ScannedFile) (s : State W) → (dispose_each disk cfg files s).world ≡ s.world
  unfolding dispose_each
  dispose_each-world [] s = refl
  dispose_each-world (f ∷ files) s =
      dispose_each-world files (dispose_file disk cfg f.path s).1 ∙ dispose_file-world f.path s

  delete_tree-world :
      (dir : Text) (lookup : DirLookup) (s : State W)
      → (delete_tree disk cfg dir lookup s).world ≡ s.world
  unfolding delete_tree
  delete_tree-world dir lookup s =
      let kept : not cfg.dry_run && not cfg.trash ≡ false = ground (arith, dry) in
      rw (delete_tree, kept) (dispose_each-world (lookup dir) s)

  delete_item_side-world :
      (delete_a : Bool) (it : OverlapItem) (s : State W)
      → (delete_item_side disk cfg delete_a it s).world ≡ s.world
  unfolding delete_item_side
  delete_item_side-world delete_a it s =
      elim (Bool-cases (any_alive (if delete_a then it.b_files else it.a_files) s.deleted)) [
        | inl e ↦ rw (delete_item_side, e) (dispose_each-world _ s)
        | inr e ↦ rw (delete_item_side, e) refl
      ]

  delete_items_side-world :
      (delete_a : Bool) (its : List OverlapItem) (s : State W)
      → (delete_items_side disk cfg delete_a its s).world ≡ s.world
  unfolding delete_items_side
  delete_items_side-world delete_a [] s = refl
  delete_items_side-world delete_a (it ∷ its) s =
      delete_items_side-world delete_a its (delete_item_side disk cfg delete_a it s)
      ∙ delete_item_side-world delete_a it s

  -- a result that comes back leaves the disk as it was
  abbrev Leaves : State W → Option (State W) → Type 0
  Leaves s out = (s' : State W) → out ≡ some s' → s'.world ≡ s.world

  same : (s : State W) (t : State W) → t.world ≡ s.world → Leaves s (some t)
  same s t e s' h = let q = some_inj h in ap (λ (x : State W). x.world) (sym q) ∙ e

  dispose_at-Leaves :
      (files : List ScannedFile) (js : List ℕ) (s : State W)
      → Leaves s (dispose_at disk cfg files js s)
  unfolding dispose_at remove_live
  dispose_at-Leaves files [] s s' h = same s s refl s' h
  dispose_at-Leaves files (j ∷ js) s s' h = elim (Option-cases (get_elem? files j)) [
    | inl e ↦ absurd (ground (arith, h, e))
    | inr (f, e) ↦
        let one : (remove_live disk cfg f s).world ≡ s.world =
          elim (Bool-cases (has f.path s.deleted)) [
            | inl d ↦ rw (remove_live, d) refl
            | inr d ↦ rw (remove_live, d) (dispose_file-world f.path s)
          ] in
        dispose_at-Leaves files js (remove_live disk cfg f s) s' (rw (dispose_at, e) at h) ∙ one
  ]

  delete_trees_at-Leaves :
      (dirs : List Text) (js : List ℕ) (lookup : DirLookup) (s : State W)
      → Leaves s (delete_trees_at disk cfg dirs js lookup s)
  unfolding delete_trees_at
  delete_trees_at-Leaves dirs [] lookup s s' h = same s s refl s' h
  delete_trees_at-Leaves dirs (j ∷ js) lookup s s' h = elim (Option-cases (get_elem? dirs j)) [
    | inl e ↦ absurd (ground (arith, h, e))
    | inr (dir, e) ↦
        delete_trees_at-Leaves dirs js lookup (delete_tree disk cfg dir lookup s) s'
          (rw (delete_trees_at, e) at h)
        ∙ delete_tree-world dir lookup s
  ]

  module _ (lookup : DirLookup) where
    apply_indices-Leaves :
        (a : Action) (js : List ℕ) (s : State W) → Leaves s (apply_indices disk cfg a js lookup s)
    unfolding apply_indices
    apply_indices-Leaves (tree p) js s = delete_trees_at-Leaves (items (tree p)) js lookup s
    apply_indices-Leaves (file_group g) js s = dispose_at-Leaves g.files js s
    apply_indices-Leaves (dir_overlap b) js s = same s s refl

    side_Leaves :
        (b : DirOverlapBlock) (delete_a : Bool) (s : State W)
        → Leaves s (some (delete_overlap_side disk cfg b delete_a s))
    unfolding delete_overlap_side
    side_Leaves b delete_a s = same s _ (delete_items_side-world delete_a b.items s)

    apply_auto-Leaves : (a : Action) (s : State W) → Leaves s (apply_auto disk cfg a lookup s)
    unfolding apply_auto
    apply_auto-Leaves (dir_overlap b) s = side_Leaves b false s
    apply_auto-Leaves (tree p) s = apply_indices-Leaves (tree p) (range_from 1 1) s
    apply_auto-Leaves (file_group g) s = elim (Bool-cases (ltb (length g.files) 2)) [
      | inl e ↦ rw (apply_auto, e) (same s s refl)
      | inr e ↦
          rw (apply_auto, e)
            (apply_indices-Leaves (file_group g) (range_from 1 (length g.files - 1)) s)
    ]

    -- of two sides, the one that alone matches the glob, or none
    one_side :
        (a b : Bool) (s : State W) (x y : State W)
        → x.world ≡ s.world
        → y.world ≡ s.world
        → Leaves s (if a && not b then some x else if b && not a then some y else some s)
    one_side true true s x y ex ey = same s s refl
    one_side true false s x y ex ey = same s x ex
    one_side false true s x y ex ey = same s y ey
    one_side false false s x y ex ey = same s s refl

    apply_glob_removal-Leaves :
        (a : Action) (s : State W) → Leaves s (apply_glob_removal disk cfg a lookup s)
    unfolding apply_glob_removal delete_overlap_side
    apply_glob_removal-Leaves (file_group g) s =
        apply_indices-Leaves (file_group g) (select_by_glob (paths_of g.files) cfg.remove_by_glob) s
    apply_glob_removal-Leaves (tree p) s =
        one_side (match_glob cfg.remove_by_glob p.dir_a) (match_glob cfg.remove_by_glob p.dir_b) s _
          _ (delete_tree-world p.dir_a lookup s) (delete_tree-world p.dir_b lookup s)
    apply_glob_removal-Leaves (dir_overlap b) s =
        one_side (match_glob cfg.remove_by_glob b.root_a) (match_glob cfg.remove_by_glob b.root_b) s
          _ _ (delete_items_side-world true b.items s) (delete_items_side-world false b.items s)

    headless_apply-Leaves :
        (a : Action) (s : State W) → Leaves s (headless_apply disk cfg lookup a s)
    unfolding headless_apply
    headless_apply-Leaves a s = elim (Bool-cases (list_eq cfg.remove_by_glob [])) [
      | inl e ↦ rw (headless_apply, e) (apply_auto-Leaves a s)
      | inr e ↦ rw (headless_apply, e) (apply_glob_removal-Leaves a s)
    ]

    headless_loop-Leaves :
        (actions : List Action) (s : State W) → Leaves s (headless_loop disk cfg lookup actions s)
    unfolding headless_loop
    headless_loop-Leaves [] s s' h = same s s refl s' h
    headless_loop-Leaves (a ∷ actions) s s' h =
        elim (Option-cases (reresolve_action a lookup s.deleted)) [
          | inl e ↦ headless_loop-Leaves actions s s' (rw (headless_loop, e) at h)
          | inr (a', e) ↦ elim (Option-cases (headless_apply disk cfg lookup a' s)) [
            | inl d ↦ absurd (let h' = rw (headless_loop, e, d) at h in ground (arith, h'))
            | inr (t, d) ↦
                headless_loop-Leaves actions t s' (rw (headless_loop, e, d) at h)
                ∙ headless_apply-Leaves a' s t d
          ]
        ]

  -- A headless run with --dry-run, whatever is in its queue and whichever mode it is in, calls nothing
  -- on the disk that could change it: where it ends, the disk is as it was.
  pub headless_delete-dry_run :
      (lookup : DirLookup) (tree_pairs : List TreeDupPair) (blocks : List DirOverlapBlock)
      (groups : List DupGroup) (w : W) (s' : State W)
      → headless_delete disk cfg lookup tree_pairs blocks groups w ≡ some s'
      → s'.world ≡ w
  unfolding headless_delete
  headless_delete-dry_run lookup tree_pairs blocks groups w s' h =
      headless_loop-Leaves lookup (build_cleanup_actions tree_pairs blocks groups)
        (record { deleted = []; world = w }) s' h
