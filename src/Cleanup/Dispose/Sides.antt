-- ===== src/Cleanup/Dispose/Sides.antt =====
-- Deleting one column of an overlap block leaves a live copy of each shared item.
use dup_detector.Prelude.{
  ◌≡◌, refl, ◌⊎◌, inl, inr, Bool, true, false, List, [], ◌∷◌, ◌++◌, Memᴰ, arith, text_eq, has,
  Bool-cases, mem-append_left, mem-append_right,
}
use dup_detector.Text.{Text}
use dup_detector.Files.{ScannedFile, OverlapItem, DirOverlapBlock}
use dup_detector.Cleanup.Dispose.{
  Config, Disk, State, any_alive, dispose_each, paths_of, delete_item_side, delete_items_side,
  delete_overlap_side,
}
use dup_detector.Cleanup.Dispose.Laws.{
  Disposes-spares, dispose_each-Disposes, any_alive_of, any_alive_inv,
}

-- No file of `t` has the path of one of `files`.
abbrev pub Apart : List ScannedFile → List ScannedFile → Type 0
Apart t files = (f : ScannedFile) → Memᴰ f t → has f.path (paths_of files) ≡ false

abbrev pub Within : List ScannedFile → List ScannedFile → Type 0
Within t files = (f : ScannedFile) → Memᴰ f files → Memᴰ f t

-- The item has two sides with no path in common, and holds copies of `t` only, or none.
pub record ItemRespects (t : List ScannedFile) (it : OverlapItem) : Type 0 where
  pub separate_a : Apart it.a_files it.b_files
  pub separate_b : Apart it.b_files it.a_files
  pub kind : Apart t (it.a_files ++ it.b_files) ⊎ Within t (it.a_files ++ it.b_files)

has-append_false :
    (q : Text) (xs ys : List ScannedFile)
    → has q (paths_of (xs ++ ys)) ≡ false
    → (has q (paths_of xs) ≡ false) × (has q (paths_of ys) ≡ false)
has-append_false q [] ys h = (refl, h)
has-append_false q (x ∷ xs) ys h = ground (arith, has-append_false q xs ys)

has-append_of :
    (q : Text) (xs ys : List ScannedFile)
    → has q (paths_of xs) ≡ false
    → has q (paths_of ys) ≡ false
    → has q (paths_of (xs ++ ys)) ≡ false
has-append_of q [] ys hx hy = hy
has-append_of q (x ∷ xs) ys hx hy = ground (arith, has-append_of q xs ys)

pub has-append_swap :
    (q : Text) (xs ys : List ScannedFile)
    → has q (paths_of (xs ++ ys)) ≡ false
    → has q (paths_of (ys ++ xs)) ≡ false
has-append_swap q xs ys h = let (hx, hy) = has-append_false q xs ys h in has-append_of q ys xs hy hx

module _ {W : Type 0} (disk : Disk W) (cfg : Config) where
  -- Files of `del` are disposed of while a live copy stands in `keep`.
  dispose_each_spares :
      (t del keep : List ScannedFile) (s : State W)
      → Apart keep del
      → Apart t del ⊎ Within t keep
      → any_alive keep s.deleted ≡ true
      → any_alive t s.deleted ≡ true
      → any_alive t (dispose_each disk cfg del s).deleted ≡ true
  dispose_each_spares t del keep s sep (inl apart) live alive =
      let (f, m, e) = any_alive_inv t s.deleted alive in
      any_alive_of f t _ m
        (Disposes-spares (paths_of del) f.path (dispose_each-Disposes disk cfg del s) (apart f m) e)
  dispose_each_spares t del keep s sep (inr within) live alive =
      let (f, m, e) = any_alive_inv keep s.deleted live in
      any_alive_of f t _ (within f m)
        (Disposes-spares (paths_of del) f.path (dispose_each-Disposes disk cfg del s) (sep f m) e)

  delete_item_side_spares :
      (t : List ScannedFile) (delete_a : Bool) (it : OverlapItem) (s : State W)
      → ItemRespects t it
      → any_alive t s.deleted ≡ true
      → any_alive t (delete_item_side disk cfg delete_a it s).deleted ≡ true
  unfolding delete_item_side
  delete_item_side_spares t true it s r alive = elim (Bool-cases (any_alive it.b_files s.deleted)) [
    | inl e ↦ rw e (
        dispose_each_spares t it.a_files it.b_files s r.separate_b
          (elim r.kind [
            | inl apart ↦ inl (λ f m. (has-append_false f.path it.a_files it.b_files (apart f m)).0)
            | inr within ↦ inr (λ f m. within f (mem-append_right it.a_files it.b_files m))
          ])
          e alive)
    | inr e ↦ rw e alive
  ]
  delete_item_side_spares t false it s r alive =
      elim (Bool-cases (any_alive it.a_files s.deleted)) [
        | inl e ↦ rw e (
            dispose_each_spares t it.b_files it.a_files s r.separate_a
              (elim r.kind [
                | inl apart ↦
                    inl (λ f m. (has-append_false f.path it.a_files it.b_files (apart f m)).1)
                | inr within ↦ inr (λ f m. within f (mem-append_left it.a_files it.b_files m))
              ])
              e alive)
        | inr e ↦ rw e alive
      ]

  delete_items_side_spares :
      (t : List ScannedFile) (delete_a : Bool) (items : List OverlapItem) (s : State W)
      → ((it : OverlapItem) → Memᴰ it items → ItemRespects t it)
      → any_alive t s.deleted ≡ true
      → any_alive t (delete_items_side disk cfg delete_a items s).deleted ≡ true
  unfolding delete_items_side
  delete_items_side_spares t delete_a [] s r alive = alive
  delete_items_side_spares t delete_a (it ∷ items) s r alive =
      delete_items_side_spares t delete_a items (delete_item_side disk cfg delete_a it s)
        (λ i m. r i (Memᴰ.tail m))
        (delete_item_side_spares t delete_a it s (r it (Memᴰ.head refl)) alive)

  -- Deleting either column of a block leaves alive every set of copies that was alive, if each
  -- item of the block keeps its sides apart and lies within the set or apart from it.
  pub delete_overlap_side-spares :
      (t : List ScannedFile) (b : DirOverlapBlock) (delete_a : Bool) (s : State W)
      → ((it : OverlapItem) → Memᴰ it b.items → ItemRespects t it)
      → any_alive t s.deleted ≡ true
      → any_alive t (delete_overlap_side disk cfg b delete_a s).deleted ≡ true
  unfolding delete_overlap_side
  delete_overlap_side-spares t b delete_a s r alive =
      delete_items_side_spares t delete_a b.items s r alive
