-- ===== src/Cleanup/Headless/Survivors.antt =====
-- The headless queue never disposes of the last copy of a file, if it holds no tree pair.
use dup_detector.Prelude.{
  ◌<◌, ◌≡◌, refl, ◌⊎◌, inl, inr, true, not, none, some, List, [], ◌∷◌, map, Memᴰ, arith, text_eq,
  nat_eq, has, length, select, mem-select, Bool-cases, ltb, mem-sort, mem-append_cases, mem-map_inv,
  mem_of_perm, perm-sym, Distinct-perm, has-perm, larger_first, mem-append_left, mem-append_right,
}
use dup_detector.Files.{ScannedFile, DupGroup, DirOverlapBlock, OverlapItem, DirLookup, signed_rank}
use dup_detector.Cleanup.Cadence.{reorient_block, more_frequent, swap_item}
use dup_detector.Cleanup.Cadence.Laws.{reorient_files-perm, perm-map}
use dup_detector.Cleanup.Dispose.{Config, Disk, State, any_alive}
use dup_detector.Cleanup.Dispose.Sides.{Apart, Within, ItemRespects, has-append_swap}
use dup_detector.Cleanup.Actions.{
  Action, tree, file_group, dir_overlap, reresolve_action, both_alive, sum_sizes,
  build_cleanup_actions, reorient_group, waste,
}
use dup_detector.Cleanup.Headless.{headless_apply, headless_loop, headless_delete}
use dup_detector.Cleanup.Headless.Steps.{
  Respects, Distinct-select, has-select, group_spares, block_spares,
}

module _ {W : Type 0} (disk : Disk W) (cfg : Config) (lookup : DirLookup)
    (t : List ScannedFile) where
  -- either nothing is done with the action, or its step leaves `t` alive
  resolved_spares :
      (a : Action) (s : State W)
      → Respects t a
      → any_alive t s.deleted ≡ true
      → (reresolve_action a lookup s.deleted ≡ none)
        ⊎ ((a' : Action) × (s' : State W) × (reresolve_action a lookup s.deleted ≡ some a')
            × (headless_apply disk cfg lookup a' s ≡ some s')
            × (any_alive t s'.deleted ≡ true))
  unfolding reresolve_action
  resolved_spares (tree p) s r alive = absurd r
  resolved_spares (file_group g) s r alive =
      let test = λ (f : ScannedFile). not (has f.path s.deleted) in
      let survivors = select test g.files in
      elim (Bool-cases (ltb (length survivors) 2)) [
        | inl e ↦ inl (rw e)
        | inr e ↦
            let kind : Apart t survivors ⊎ Within t survivors = elim r.1 [
              | inl apart ↦ inl (λ f m. has-select test f.path g.files (apart f m))
              | inr within ↦ inr (λ f m. within f (mem-select test g.files m).0)
            ] in
            let (s', run, ok) =
              group_spares disk cfg t lookup (record g { files = survivors }) s
                (Distinct-select test g.files r.0, kind)
                (λ f m. let h = (mem-select test g.files m).1 in ground arith) (ground arith)
                alive in
            inr (file_group (record g { files = survivors }), s', rw e, run, ok)
      ]
  resolved_spares (dir_overlap b) s r alive =
      let live = select (both_alive s.deleted) b.items in
      elim (Bool-cases (ltb (length live) 1)) [
        | inl e ↦ inl (rw e)
        | inr e ↦
            let b' = record b { items = live; shared_bytes = sum_sizes live 0 } in
            let (s', run, ok) =
              block_spares disk cfg t lookup b' s
                (λ it m. r it (mem-select (both_alive s.deleted) b.items m).0) alive in
            inr (dir_overlap b', s', rw e, run, ok)
      ]

  loop_spares :
      (actions : List Action) (s : State W)
      → ((a : Action) → Memᴰ a actions → Respects t a)
      → any_alive t s.deleted ≡ true
      → (s' : State W) × (headless_loop disk cfg lookup actions s ≡ some s')
        × (any_alive t s'.deleted ≡ true)
  unfolding headless_loop
  loop_spares [] s r alive = (s, refl, alive)
  loop_spares (a ∷ actions) s r alive = elim (resolved_spares a s (r a (Memᴰ.head refl)) alive) [
    | inl e ↦ rw (e, headless_loop) (loop_spares actions s (λ b m. r b (Memᴰ.tail m)) alive)
    | inr (a', s', e, run, ok) ↦
        rw (e, headless_loop) (rw run (loop_spares actions s' (λ b m. r b (Memᴰ.tail m)) ok))
  ]

reorient_group-Respects :
    (t : List ScannedFile) (g : DupGroup)
    → Respects t (file_group g)
    → Respects t (file_group (reorient_group g))
unfolding reorient_group
reorient_group-Respects t g r =
    let p = reorient_files-perm g.files in
    let paths = perm-map (λ (f : ScannedFile). f.path) p in
    (
      Distinct-perm (perm-sym paths) r.0,
      elim r.1 [
        | inl apart ↦ inl (λ f m. rw (has-perm f.path paths) (apart f m))
        | inr within ↦ inr (λ f m. within f (mem_of_perm p m))
      ],
    )

swap_item-Respects :
    (t : List ScannedFile) (it : OverlapItem) → ItemRespects t it → ItemRespects t (swap_item it)
unfolding swap_item
swap_item-Respects t it r = record {
  separate_a = r.separate_b;
  separate_b = r.separate_a;
  kind = elim r.kind [
    | inl apart ↦ inl (λ f m. has-append_swap f.path it.a_files it.b_files (apart f m))
    | inr within ↦ inr (λ f m. elim (mem-append_cases it.b_files it.a_files m) [
      | inl b ↦ within f (mem-append_right it.a_files it.b_files b)
      | inr a ↦ within f (mem-append_left it.a_files it.b_files a)
    ])
  ];
}

reorient_block-Respects :
    (t : List ScannedFile) (b : DirOverlapBlock)
    → Respects t (dir_overlap b)
    → Respects t (dir_overlap (reorient_block b))
unfolding reorient_block
reorient_block-Respects t b r = elim (Bool-cases (more_frequent b.root_a b.root_b)) [
  | inl e ↦ rw e (λ it m.
      let (old, n, same) = mem-map_inv swap_item b.items m in
      rw same (swap_item-Respects t old (r old n)))
  | inr e ↦ rw e r
]

queue-Respects :
    (t : List ScannedFile) (blocks : List DirOverlapBlock) (groups : List DupGroup)
    → ((b : DirOverlapBlock) → Memᴰ b blocks → Respects t (dir_overlap b))
    → ((g : DupGroup) → Memᴰ g groups → Respects t (file_group g))
    → (a : Action) → Memᴰ a (build_cleanup_actions [] blocks groups)
    → Respects t a
unfolding build_cleanup_actions
queue-Respects t blocks groups rb rg a m =
    let all = map dir_overlap (map reorient_block blocks) in
    let m' = mem-sort (larger_first (λ x. signed_rank (waste x))) _ m in
    elim (mem-append_cases all (map file_group (map reorient_group groups)) m') [
      | inl l ↦
          let (b', n, e) = mem-map_inv dir_overlap (map reorient_block blocks) l in
          let (b, k, d) = mem-map_inv reorient_block blocks n in
          rw (e, d) (reorient_block-Respects t b (rb b k))
      | inr l ↦
          let (g', n, e) = mem-map_inv file_group (map reorient_group groups) l in
          let (g, k, d) = mem-map_inv reorient_group groups n in
          rw (e, d) (reorient_group-Respects t g (rg g k))
    ]

-- Whatever the disk answers and whether the mode is keep-first or by glob, a headless run over
-- overlap blocks and file groups ends without a panic and leaves alive a file of `t`, where `t` is
-- any non-empty set of copies that each group and each block item lies within or apart from, the
-- paths of a group are distinct, and the two sides of an item share no path.
pub headless_delete-survivor :
    {W : Type 0} (disk : Disk W) (cfg : Config) (lookup : DirLookup) (t : List ScannedFile)
    (blocks : List DirOverlapBlock) (groups : List DupGroup) (w : W)
    → 0 < length t
    → ((b : DirOverlapBlock) → Memᴰ b blocks → Respects t (dir_overlap b))
    → ((g : DupGroup) → Memᴰ g groups → Respects t (file_group g))
    → (s' : State W) × (headless_delete disk cfg lookup [] blocks groups w ≡ some s')
      × (any_alive t s'.deleted ≡ true)
unfolding headless_delete any_alive
headless_delete-survivor disk cfg lookup [] blocks groups w h rb rg = absurd (omega arith)
headless_delete-survivor disk cfg lookup (f ∷ t) blocks groups w h rb rg =
    loop_spares disk cfg lookup (f ∷ t) (build_cleanup_actions [] blocks groups)
      (record { deleted = []; world = w }) (queue-Respects (f ∷ t) blocks groups rb rg) refl
