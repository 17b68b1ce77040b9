-- ===== src/Cleanup/Dispose/Laws.antt =====
-- What the deletion primitives do to the record of disposed paths.
use dup_detector.Prelude.{
  ◌≡◌, ◌⊎◌, inl, inr, true, false, not, List, [], ◌∷◌, map, Memᴰ, arith, text_eq, has, mem-has,
  Bool-cases, ◌&&◌, list_eq_self, any-true, any-of, mem-map,
}
use dup_detector.Text.{Text}
use dup_detector.Files.{ScannedFile, DirLookup}
use dup_detector.Cleanup.Dispose.{
  Config, Disk, State, any_alive, dispose_file, dispose_each, paths_of, delete_tree,
}

pub paths_of-has :
    (f : ScannedFile) (files : List ScannedFile) → Memᴰ f files → has f.path (paths_of files) ≡ true
paths_of-has f files m = mem-has f.path (map (λ g. g.path) files) (mem-map (λ g. g.path) files m)

pub any_alive_of :
    (f : ScannedFile) (files : List ScannedFile) (d : List Text)
    → Memᴰ f files
    → has f.path d ≡ false
    → any_alive files d ≡ true
unfolding any_alive
any_alive_of f files d m h = any-of (λ g. not (has g.path d)) files m (ground arith)

pub any_alive_inv :
    (files : List ScannedFile) (d : List Text)
    → any_alive files d ≡ true
    → (f : ScannedFile) × Memᴰ f files × (has f.path d ≡ false)
unfolding any_alive
any_alive_inv files d h =
    let (f, m, e) = any-true (λ g. not (has g.path d)) files h in (f, m, ground arith)

module _ {W : Type 0} where
  -- From `s` to `s'` nothing is taken back, and only `paths` are added.
  pub record Disposes (paths : List Text) (s s' : State W) : Type 0 where
    pub grows : (q : Text) → has q s.deleted ≡ true → has q s'.deleted ≡ true
    pub within :
        (q : Text) → has q s'.deleted ≡ true → (has q s.deleted ≡ true) ⊎ (has q paths ≡ true)

  pub Disposes-refl : (paths : List Text) (s : State W) → Disposes paths s s
  Disposes-refl paths s = record { grows = λ q h. h; within = λ q h. inl h }

  pub Disposes-trans :
      (paths : List Text) {s t u : State W}
      → Disposes paths s t
      → Disposes paths t u
      → Disposes paths s u
  Disposes-trans paths {s} {t} {u} a b = record {
    grows = λ q h. b.grows q (a.grows q h);
    within = λ q h. elim (b.within q h) [ inl e ↦ a.within q e | inr e ↦ inr e ];
  }

  pub Disposes-widen :
      (paths more : List Text) {s t : State W}
      → ((q : Text) → has q paths ≡ true → has q more ≡ true)
      → Disposes paths s t
      → Disposes more s t
  Disposes-widen paths more {s} {t} sub a = record {
    grows = a.grows;
    within = λ q h. elim (a.within q h) [ inl e ↦ inl e | inr e ↦ inr (sub q e) ];
  }

  -- A path outside is as alive as it was.
  pub Disposes-spares :
      (paths : List Text) {s s' : State W} (q : Text)
      → Disposes paths s s'
      → has q paths ≡ false
      → has q s.deleted ≡ false
      → has q s'.deleted ≡ false
  Disposes-spares paths {s} {s'} q d out alive = elim (Bool-cases (has q s'.deleted)) [
    | inl e ↦ elim (d.within q e) [ inl h ↦ absurd (ground arith) | inr h ↦ absurd (ground arith) ]
    | inr e ↦ e
  ]

  module _ (disk : Disk W) (cfg : Config) where
    pub dispose_file-Disposes :
        (path : Text) (s : State W) → Disposes (path ∷ []) s (dispose_file disk cfg path s).1
    unfolding dispose_file
    dispose_file-Disposes path s = record {
      grows = λ q h. ground arith;
      within = λ q h. ground arith;
    }

    -- The file is recorded exactly when the call says so.
    pub dispose_file-recorded :
        (path : Text) (s : State W)
        → (dispose_file disk cfg path s).0 ≡ true
        → has path (dispose_file disk cfg path s).1.deleted ≡ true
    unfolding dispose_file
    dispose_file-recorded path s h = ground (arith, list_eq_self path)

    pub dispose_each-Disposes :
        (files : List ScannedFile) (s : State W)
        → Disposes (paths_of files) s (dispose_each disk cfg files s)
    unfolding dispose_each
    dispose_each-Disposes [] s = Disposes-refl [] s
    dispose_each-Disposes (f ∷ files) s =
        let s' : State W = (dispose_file disk cfg f.path s).1 in
        Disposes-trans (paths_of (f ∷ files))
          (Disposes-widen (f.path ∷ []) (paths_of (f ∷ files)) (λ q h. ground arith)
            (dispose_file-Disposes f.path s))
          (Disposes-widen (paths_of files) (paths_of (f ∷ files)) (λ q h. ground arith)
            (dispose_each-Disposes files s'))

    -- What the tree prune removes is no file of the record.
    pub delete_tree-Disposes :
        (dir : Text) (lookup : DirLookup) (s : State W)
        → Disposes (paths_of (lookup dir)) s (delete_tree disk cfg dir lookup s)
    unfolding delete_tree
    delete_tree-Disposes dir lookup s =
        let d = dispose_each-Disposes (lookup dir) s in
        elim (Bool-cases (not cfg.dry_run && not cfg.trash)) [
          | inl e ↦ rw e (record { grows = d.grows; within = d.within })
          | inr e ↦ rw e d
        ]
