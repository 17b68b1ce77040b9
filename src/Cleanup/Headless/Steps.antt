-- ===== src/Cleanup/Headless/Steps.antt =====
-- One action of the headless queue leaves alive every set of copies that it respects.
use dup_detector.Prelude.{
  ℕ, ◌-◌, ◌≤◌, ◌<◌, ◌≡◌, refl, ◌⊎◌, inl, inr, Bool, true, false, not, ◌&&◌, some, List, [], ◌∷◌,
  Memᴰ, arith, text_eq, nat_eq, has, Distinct, length, get_elem?-lt, get_elem?-mem, select,
  Bool-cases, ltb, list_eq, length-map,
}
use dup_detector.Text.{Text}
use dup_detector.Files.{ScannedFile, DupGroup, DirOverlapBlock, OverlapItem, DirLookup}
use dup_detector.Glob.{select_by_glob, match_glob}
use dup_detector.Glob.Selection.{select_by_glob-survivor}
use dup_detector.Cleanup.Dispose.{Config, Disk, State, paths_of, any_alive}
use dup_detector.Cleanup.Dispose.Laws.{any_alive_of, any_alive_inv, Disposes-spares}
use dup_detector.Cleanup.Dispose.Sides.{Apart, Within, ItemRespects, delete_overlap_side-spares}
use dup_detector.Cleanup.Actions.{
  Action, tree, file_group, dir_overlap, dispose_at, apply_indices, apply_auto, apply_glob_removal,
  range_from,
}
use dup_detector.Cleanup.Actions.Picks.{
  AllBelow, pick, pick-within, dispose_at-total, dispose_at-spares, glob-AllBelow,
  range_from-AllBelow, has-range_from,
}
use dup_detector.Cleanup.Headless.{headless_apply}

-- What an action may hold beside the copies `t`: a group has distinct paths, and lies within `t` or
-- apart from it; so does each item of a block. A tree pair is not allowed.
abbrev pub Respects : List ScannedFile → Action → Type 0
Respects t (tree p) = ⊥
Respects t (file_group g) = Distinct (paths_of g.files) × (Apart t g.files ⊎ Within t g.files)
Respects t (dir_overlap b) = (it : OverlapItem) → Memᴰ it b.items → ItemRespects t it

pub has-select :
    (p : ScannedFile → Bool) (q : Text) (files : List ScannedFile)
    → has q (paths_of files) ≡ false
    → has q (paths_of (select p files)) ≡ false
has-select p q [] h = refl
has-select p q (f ∷ files) h = ground (arith, has-select p q files)

pub Distinct-select :
    (p : ScannedFile → Bool) (files : List ScannedFile)
    → Distinct (paths_of files)
    → Distinct (paths_of (select p files))
Distinct-select p [] d = tt
Distinct-select p (f ∷ files) d = elim (Bool-cases (p f)) [
  | inl e ↦ rw e (has-select p f.path files d.0, Distinct-select p files d.1)
  | inr e ↦ rw e (Distinct-select p files d.1)
]

module _ {W : Type 0} (disk : Disk W) (cfg : Config) (t : List ScannedFile) where
  -- Any choice of indices that leaves one out leaves `t` alive.
  pub choice_spares :
      (files : List ScannedFile) (js : List ℕ) (i : ℕ) (s : State W)
      → Distinct (paths_of files)
      → Apart t files ⊎ Within t files
      → ((f : ScannedFile) → Memᴰ f files → has f.path s.deleted ≡ false)
      → AllBelow (length files) js
      → i < length files
      → has i js ≡ false
      → any_alive t s.deleted ≡ true
      → (s' : State W) × (dispose_at disk cfg files js s ≡ some s')
        × (any_alive t s'.deleted ≡ true)
  choice_spares files js i s d (inl apart) live below h out alive =
      let (s', run, dis) = dispose_at-total disk cfg files js s below in
      let (f, m, e) = any_alive_inv t s.deleted alive in
      (
        s',
        run,
        any_alive_of f t s'.deleted m (
            Disposes-spares (pick files js) f.path dis (pick-within files js f.path (apart f m)) e),
      )
  choice_spares files js i s d (inr within) live below h out alive =
      let (f, at) = get_elem?-lt files i h in
      let m = get_elem?-mem files i at in
      let (s', run, e) = dispose_at-spares disk cfg files js i f s below d at out (live f m) in
      (s', run, any_alive_of f t s'.deleted (within f m) e)

  module _ (lookup : DirLookup) where
    pub group_spares :
        (g : DupGroup) (s : State W)
        → Respects t (file_group g)
        → ((f : ScannedFile) → Memᴰ f g.files → has f.path s.deleted ≡ false)
        → 2 ≤ length g.files
        → any_alive t s.deleted ≡ true
        → (s' : State W) × (headless_apply disk cfg lookup (file_group g) s ≡ some s')
          × (any_alive t s'.deleted ≡ true)
    unfolding headless_apply apply_auto apply_indices apply_glob_removal
    group_spares g s r live two alive = elim (Bool-cases (list_eq cfg.remove_by_glob [])) [
      | inl e ↦
          let wide : ltb (length g.files) 2 ≡ false = ground arith in
          rw (e, wide)
            (choice_spares g.files (range_from 1 (length g.files - 1)) 0 s r.0 r.1 live
              (range_from-AllBelow (length g.files) 1 (length g.files - 1) (omega arith))
              (omega arith) (has-range_from 0 1 (length g.files - 1) (omega arith)) alive)
      | inr e ↦
          let (i, below, out) =
            select_by_glob-survivor (paths_of g.files) cfg.remove_by_glob
              (omega (arith, length-map (λ (f : ScannedFile). f.path) g.files)) in
          rw e (
            choice_spares g.files (select_by_glob (paths_of g.files) cfg.remove_by_glob) i s r.0 r.1
              live (glob-AllBelow g.files cfg.remove_by_glob)
              (omega (arith, length-map (λ (f : ScannedFile). f.path) g.files)) out alive)
    ]

    pub block_spares :
        (b : DirOverlapBlock) (s : State W)
        → Respects t (dir_overlap b)
        → any_alive t s.deleted ≡ true
        → (s' : State W) × (headless_apply disk cfg lookup (dir_overlap b) s ≡ some s')
          × (any_alive t s'.deleted ≡ true)
    unfolding headless_apply apply_auto apply_glob_removal
    block_spares b s r alive =
        let after_a = delete_overlap_side-spares disk cfg t b true s r alive in
        let after_b = delete_overlap_side-spares disk cfg t b false s r alive in
        let a = match_glob cfg.remove_by_glob b.root_a in
        let c = match_glob cfg.remove_by_glob b.root_b in
        elim (Bool-cases (list_eq cfg.remove_by_glob [])) [
          | inl e ↦ rw e (_, refl, after_b)
          | inr e ↦ elim (Bool-cases (a && not c)) [
            | inl p ↦ rw (e, p) (_, refl, after_a)
            | inr p ↦ elim (Bool-cases (c && not a)) [
              | inl q ↦ rw (e, p, q) (_, refl, after_b)
              | inr q ↦ rw (e, p, q) (s, refl, alive)
            ]
          ]
        ]
