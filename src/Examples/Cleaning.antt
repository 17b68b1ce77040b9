-- ===== src/Examples/Cleaning.antt =====
-- Runs of the deletion code (cleanup.go, headless.go, glob.go) on the sample data.
use dup_detector.Prelude.{
  ℕ, ◌≡◌, ◌≢◌, refl, ap, inl, inr, ◌↔◌, true, false, some, [], ◌∷◌, Memᴰ, arith, length, nat_eq,
  text_eq, mem-cons_cases, in_order,
}
use dup_detector.Text.{trim_space, to_lower, codes}
use dup_detector.Files.{DupGroup, OverlapItem, DirOverlapBlock}
use dup_detector.Glob.{runes, match_glob}
use dup_detector.Glob.Laws.{GlobMatches, match_glob_iff}
use dup_detector.Overlap.{build_overlap_blocks}
use dup_detector.Cleanup.Dispose.{State, any_alive}
use dup_detector.Cleanup.Dispose.Sides.{Apart, ItemRespects}
use dup_detector.Cleanup.Actions.{file_group, dir_overlap}
use dup_detector.Cleanup.Headless.{headless_delete}
use dup_detector.Cleanup.Headless.Steps.{Respects}
use dup_detector.Cleanup.Headless.Survivors.{headless_delete-survivor}
use dup_detector.Cleanup.Headless.Blocks.{overlap_cleanup-survivor}
use dup_detector.Cleanup.Prompt.{answer, Prompted, prompt_action}
use dup_detector.Cleanup.Prompt.Laws.{prompt_action-survivor, prompt_action-column_one}
use dup_detector.Examples.{
  a_one, b_one, pair_files, pair_group, pair_item, pair_block, column_of, counting_disk,
  plain_config, start, no_lookup, pair_files-Distinct,
}

pair_group-Respects : (g : DupGroup) → Memᴰ g (pair_group ∷ []) → Respects pair_files (file_group g)
pair_group-Respects g m = elim (mem-cons_cases m) [
  | inl e ↦ rw e (pair_files-Distinct, inr (λ f n. n))
  | inr t ↦ elim t [ ]
]

sides-Apart : Apart (a_one ∷ []) (b_one ∷ [])
sides-Apart f m = elim (mem-cons_cases m) [ inl e ↦ rw e refl | inr t ↦ elim t [ ] ]

sides-Apart_back : Apart (b_one ∷ []) (a_one ∷ [])
sides-Apart_back f m = elim (mem-cons_cases m) [ inl e ↦ rw e refl | inr t ↦ elim t [ ] ]

pair_item-Respects : (it : OverlapItem) → Memᴰ it (pair_item ∷ []) → ItemRespects pair_files it
pair_item-Respects it m = elim (mem-cons_cases m) [
  | inr t ↦ elim t [ ]
  | inl e ↦
      rw e
        (record { separate_a = sides-Apart; separate_b = sides-Apart_back; kind = inr (λ f n. n) })
]

pair_block-Respects :
    (b : DirOverlapBlock) → Memᴰ b (pair_block ∷ []) → Respects pair_files (dir_overlap b)
pair_block-Respects b m = elim (mem-cons_cases m) [
  | inl e ↦ rw e pair_item-Respects
  | inr t ↦ elim t [ ]
]

headless_delete-survivor_example :
    (s : State ℕ) × (headless_delete counting_disk plain_config no_lookup []
        (pair_block ∷ [])
        (pair_group ∷ [])
        0
      ≡ some s)
    × (any_alive pair_files s.deleted ≡ true)
headless_delete-survivor_example =
    headless_delete-survivor counting_disk plain_config no_lookup pair_files (pair_block ∷ [])
      (pair_group ∷ []) 0 (omega arith) pair_block-Respects pair_group-Respects

overlap_cleanup-survivor_example :
    (s : State ℕ) × (headless_delete counting_disk plain_config no_lookup []
        (build_overlap_blocks in_order column_of (pair_group ∷ []) 30 2).0
        (build_overlap_blocks in_order column_of (pair_group ∷ []) 30 2).1
        0
      ≡ some s)
    × (any_alive pair_files s.deleted ≡ true)
overlap_cleanup-survivor_example =
    overlap_cleanup-survivor in_order column_of 30 2 counting_disk plain_config no_lookup pair_files
      (pair_group ∷ []) 0 (omega arith) pair_group-Respects

prompt_action-survivor_example :
    (p : Prompted ℕ) × (prompt_action counting_disk plain_config no_lookup
        (file_group pair_group)
        (codes "2" ∷ codes "y" ∷ [])
        false
        start
      ≡ some p)
    × (any_alive pair_files p.state.deleted ≡ true)
prompt_action-survivor_example =
    prompt_action-survivor counting_disk plain_config no_lookup pair_group start
      (codes "2" ∷ codes "y" ∷ []) false pair_files-Distinct (λ f m. refl) (omega arith)

line_one-longer : (49 ∷ 10 ∷ []) ≢ codes "1"
line_one-longer e =
    let len : length {A = ℕ} (49 ∷ 10 ∷ []) ≡ length (codes "1") = ap length e in
    absurd (ground (arith, len))

prompt_action-column_one_example :
    prompt_action counting_disk plain_config no_lookup
      (dir_overlap pair_block)
      ((49 ∷ 10 ∷ []) ∷ codes "y" ∷ [])
      false
      start
    ≡ prompt_action counting_disk plain_config no_lookup
        (dir_overlap pair_block)
        ((50 ∷ 10 ∷ []) ∷ codes "y" ∷ [])
        false
        start
unfolding answer trim_space to_lower
prompt_action-column_one_example =
    prompt_action-column_one counting_disk plain_config no_lookup pair_block start (49 ∷ 10 ∷ [])
      (50 ∷ 10 ∷ []) (codes "y" ∷ []) false refl line_one-longer refl

match_glob_iff_example :
    (match_glob (codes "/a*") (codes "/a/x") ≡ true)
    ↔ GlobMatches (runes (codes "/a*")) (runes (codes "/a/x"))
match_glob_iff_example = match_glob_iff (codes "/a*") (codes "/a/x")
