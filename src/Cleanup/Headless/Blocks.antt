-- ===== src/Cleanup/Headless/Blocks.antt =====
-- The headless run (headless.go) over what BuildOverlapBlocks (overlap.go) makes of the groups.
use dup_detector.Prelude.{
  ℕ, suc, ◌<◌, ◌≡◌, ◌≢◌, sym, ap, ◌∙◌, ◌⊎◌, inl, inr, true, some, List, [], ◌∷◌, ◌++◌, Memᴰ, arith,
  length, has, text_eq, nat_eq, list_eq, list_eq_iff, mem-select, Bool-cases, has-mem, mem-has,
  mem-map, mem-map_inv, mem-cons_cases, mem-append_cases, Order, Distinct,
}
use dup_detector.Text.{Text}
use dup_detector.Files.{ScannedFile, DupGroup, OverlapItem, DirLookup}
use dup_detector.Overlap.{not_absorbed, build_overlap_blocks}
use dup_detector.Overlap.Blocks.{column, IsItemOf, build_overlap_blocks-items}
use dup_detector.Cleanup.Dispose.{Config, Disk, State, paths_of, any_alive}
use dup_detector.Cleanup.Dispose.Sides.{Apart, Within, ItemRespects}
use dup_detector.Cleanup.Actions.{file_group}
use dup_detector.Cleanup.Headless.{headless_delete}
use dup_detector.Cleanup.Headless.Steps.{Respects}
use dup_detector.Cleanup.Headless.Survivors.{headless_delete-survivor}

path_has :
    {f : ScannedFile} (files : List ScannedFile) → Memᴰ f files → has f.path (paths_of files) ≡ true
path_has files m = mem-has _ (paths_of files) (mem-map (λ (h : ScannedFile). h.path) files m)

pub has_path :
    (q : Text) (files : List ScannedFile)
    → has q (paths_of files) ≡ true
    → (h : ScannedFile) × Memᴰ h files × (q ≡ h.path)
has_path q files e = mem-map_inv (λ (h : ScannedFile). h.path) files (has-mem q (paths_of files) e)

-- Two files of a list of distinct paths are the same if their paths are.
pub one_file :
    (f h : ScannedFile) (files : List ScannedFile)
    → Distinct (paths_of files)
    → Memᴰ f files
    → Memᴰ h files
    → f.path ≡ h.path
    → f ≡ h
one_file f h [] d m n e = elim m [ ]
one_file f h (x ∷ files) d m n e = elim (mem-cons_cases m) [
  | inl p ↦ elim (mem-cons_cases n) [
    | inl q ↦ p ∙ sym q
    | inr t ↦
        let k = path_has files t in
        let same : h.path ≡ x.path = sym e ∙ ap (λ (y : ScannedFile). y.path) p in
        absurd (ground (arith, d.0, k, same))
  ]
  | inr s ↦ elim (mem-cons_cases n) [
    | inl q ↦
        let k = path_has files s in
        let same : f.path ≡ x.path = e ∙ ap (λ (y : ScannedFile). y.path) q in
        absurd (ground (arith, d.0, k, same))
    | inr t ↦ one_file f h files d.1 s t e
  ]
]

mem-column :
    (col_of : ScannedFile → Text) (c : Text) (files : List ScannedFile) {f : ScannedFile}
    → Memᴰ f (column col_of c files)
    → Memᴰ f files × (col_of f ≡ c)
mem-column col_of c files {f = f} m =
    let (n, e) = mem-select (λ f. list_eq (col_of f) c) _ m in
    ((mem-select _ files n).0, (list_eq_iff (col_of f) c).0 e)

module _ (col_of : ScannedFile → Text) (g : DupGroup) (distinct : Distinct (paths_of g.files)) where
  columns-Apart : (a b : Text) → a ≢ b → Apart (column col_of a g.files) (column col_of b g.files)
  columns-Apart a b ne f m = elim (Bool-cases (has f.path (paths_of (column col_of b g.files)))) [
    | inr e ↦ e
    | inl e ↦
        let (h, n, p) = has_path f.path _ e in
        let (fm, fa) = mem-column col_of a g.files m in
        let (hm, hb) = mem-column col_of b g.files n in
        let same = one_file f h g.files distinct fm hm p in
        absurd (ne (sym fa ∙ (ap col_of same ∙ hb)))
  ]

  item-Respects :
      (t : List ScannedFile) (a b : Text) (it : OverlapItem)
      → Apart t g.files ⊎ Within t g.files
      → IsItemOf col_of a b g it
      → ItemRespects t it
  item-Respects t a b it kind (size, left, right, ne) =
      let inside : (f : ScannedFile) → Memᴰ f (it.a_files ++ it.b_files) → Memᴰ f g.files = λ f m.
        elim (mem-append_cases it.a_files it.b_files m) [
          | inl l ↦ (mem-column col_of a g.files (rw left at l)).0
          | inr r ↦ (mem-column col_of b g.files (rw right at r)).0
        ] in
      record {
        separate_a = rw (left, right) (columns-Apart a b ne);
        separate_b = rw (left, right) (columns-Apart b a (λ e. ne (sym e)));
        kind = elim kind [
          | inr within ↦ inr (λ f m. within f (inside f m))
          | inl apart ↦ inl (λ f m.
              elim (Bool-cases (has f.path (paths_of (it.a_files ++ it.b_files)))) [
                | inr e ↦ e
                | inl e ↦
                    let (h, n, p) = has_path f.path _ e in
                    let k = path_has g.files (inside h n) in
                    absurd (ground (arith, apart f m, k, p))
              ])
        ];
      }

mem-not_absorbed :
    (absorbed : List ℕ) (gi : ℕ) (groups : List DupGroup) {g : DupGroup}
    → Memᴰ g (not_absorbed absorbed gi groups)
    → Memᴰ g groups
unfolding not_absorbed
mem-not_absorbed absorbed gi [] m = elim m [ ]
mem-not_absorbed absorbed gi (h ∷ groups) m = elim (Bool-cases (has gi absorbed)) [
  | inl e ↦ Memᴰ.tail (mem-not_absorbed absorbed (suc gi) groups (rw e at m))
  | inr e ↦ elim (mem-cons_cases (rw e at m)) [
    | inl p ↦ Memᴰ.head p
    | inr t ↦ Memᴰ.tail (mem-not_absorbed absorbed (suc gi) groups t)
  ]
]

-- When groups are made into overlap blocks and the blocks and the remaining groups are cleaned up
-- without prompts, the run ends without a panic and leaves alive a file of `t`, where `t` is any
-- non-empty set of copies that each group lies within or apart from, and the paths of a group are
-- distinct. It holds for every choice of columns, block size, disk and mode.
pub overlap_cleanup-survivor :
    (order : Order) (col_of : ScannedFile → Text) (block_size min_overlap : ℕ) {W : Type 0}
    (disk : Disk W) (cfg : Config) (lookup : DirLookup) (t : List ScannedFile)
    (groups : List DupGroup) (w : W)
    → 0 < length t
    → ((g : DupGroup) → Memᴰ g groups → Respects t (file_group g))
    → (s' : State W) × (headless_delete disk cfg lookup []
          (build_overlap_blocks order col_of groups block_size min_overlap).0
          (build_overlap_blocks order col_of groups block_size min_overlap).1
          w
        ≡ some s')
      × (any_alive t s'.deleted ≡ true)
unfolding build_overlap_blocks
overlap_cleanup-survivor order col_of block_size min_overlap disk cfg lookup t groups w h rg =
    let out = build_overlap_blocks order col_of groups block_size min_overlap in
    headless_delete-survivor disk cfg lookup t out.0 out.1 w h
      (λ b m it n.
        let (le, from) =
          build_overlap_blocks-items order col_of groups block_size min_overlap b m in
        let (g, k, whole) = from it n in
        let (distinct, kind) = rg g k in
        item-Respects col_of g distinct t b.root_a b.root_b it kind whole)
      (λ g m. rg g (mem-not_absorbed _ 0 groups m))
