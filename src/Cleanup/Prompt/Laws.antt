-- ===== src/Cleanup/Prompt/Laws.antt =====
-- What the prompts cannot do: delete every copy of a group. And what promptOverlap does with `1`.
use dup_detector.Prelude.{
  ap, ◌∙◌, sym, ℕ, ◌-◌, ◌≤◌, ◌<◌, ◌≡◌, ◌≢◌, refl, inl, inr, Bool, true, false, Option, none, some,
  List, [], ◌∷◌, Memᴰ, arith, text_eq, nat_eq, has, Distinct, length, leb, ltb, Bool-cases,
  if◌then◌else◌, list_eq, list_eq_iff, length-map,
}
use dup_detector.Text.{trim_space, to_lower, Text, codes}
use dup_detector.Files.{ScannedFile, DupGroup, DirOverlapBlock, DirLookup}
use dup_detector.Cleanup.Dispose.{Config, Disk, State, paths_of, any_alive}
use dup_detector.Cleanup.Dispose.Laws.{any_alive_of}
use dup_detector.Cleanup.Actions.{file_group, dir_overlap, apply_indices, apply_auto, range_from}
use dup_detector.Cleanup.Actions.Picks.{AllBelow, range_from-AllBelow, has-range_from}
use dup_detector.Cleanup.Headless.Steps.{choice_spares}
use dup_detector.Cleanup.Indices.{parse_indices}
use dup_detector.Cleanup.Indices.Laws.{parse_indices-IsSelection, left_out}
use dup_detector.Cleanup.Prompt.{
  Command, help, skip, quit, auto_keep, invalid, delete, answer, read_command, declined, Prompted,
  prompted, settle, after_command, prompt_loop, prompt_action, column, read_overlap_command,
  overlap_loop,
}

-- A selection that is accepted is in range and leaves a copy out.
abbrev Chosen : ℕ → Command → Type 0
Chosen n (delete js) = AllBelow n js × (length js < n)
Chosen n _ = Unit

delete-Chosen :
    (n : ℕ) (a : Text) (o : Option (List ℕ))
    → parse_indices a n ≡ o
    → Chosen n
        (elim o [ none ↦ invalid | some js ↦ if leb n (length js) then invalid else delete js ])
delete-Chosen n a none e = tt
delete-Chosen n a (some js) e = elim (Bool-cases (leb n (length js))) [
  | inl h ↦ rw h tt
  | inr h ↦ rw h ((parse_indices-IsSelection a n js e).0.below, ground arith)
]

read_command-Chosen : (n : ℕ) (line : Text) → Chosen n (read_command n line)
unfolding read_command
read_command-Chosen n line = elim (Bool-cases (list_eq (answer line) (codes "?"))) [
  | inl e ↦ rw e tt
  | inr e ↦ elim (Bool-cases (list_eq (answer line) [])) [
    | inl f ↦ rw (e, f) tt
    | inr f ↦ elim (Bool-cases (list_eq (answer line) (codes "s"))) [
      | inl g ↦ rw (e, f, g) tt
      | inr g ↦ elim (Bool-cases (list_eq (answer line) (codes "q"))) [
        | inl h ↦ rw (e, f, g, h) tt
        | inr h ↦ elim (Bool-cases (list_eq (answer line) (codes "a"))) [
          | inl k ↦ rw (e, f, g, h, k) tt
          | inr k ↦ rw (e, f, g, h, k) (delete-Chosen n (answer line) _ refl)
        ]
      ]
    ]
  ]
]

first_alive :
    (files : List ScannedFile) (d : List Text)
    → ((f : ScannedFile) → Memᴰ f files → has f.path d ≡ false)
    → 0 < length files
    → any_alive files d ≡ true
first_alive [] d live h = absurd (omega arith)
first_alive (f ∷ files) d live h =
    any_alive_of f (f ∷ files) _ (Memᴰ.head refl) (live f (Memᴰ.head refl))

reads_second :
    (line : Text)
    → answer line ≡ codes "1"
    → line ≢ codes "1"
    → read_overlap_command line ≡ column false
unfolding read_overlap_command
reads_second line one ne =
    let bare : list_eq line (codes "1") ≡ false = elim (Bool-cases (list_eq line (codes "1"))) [
      | inl e ↦ absurd (ne ((list_eq_iff line (codes "1")).0 e))
      | inr e ↦ e
    ] in
    rw (one, bare)

module _ {W : Type 0} (disk : Disk W) (cfg : Config) (lookup : DirLookup) (g : DupGroup) where
  abbrev Spared : Option (Prompted W) → Type 0
  Spared o = (p : Prompted W) × (o ≡ some p) × (any_alive g.files p.state.deleted ≡ true)

  module _ (s : State W) (distinct : Distinct (paths_of g.files))
      (live : (f : ScannedFile) → Memᴰ f g.files → has f.path s.deleted ≡ false)
      (two : 2 ≤ length g.files) where
    alive : any_alive g.files s.deleted ≡ true
    alive = first_alive g.files s.deleted live (omega arith)

    settle_spares :
        (c : Command) (again : Option (Prompted W)) (lines : List Text) (auto : Bool)
        → Chosen (length g.files) c
        → Spared again
        → Spared (settle disk cfg lookup (file_group g) c again lines auto s)
    unfolding settle apply_auto apply_indices
    settle_spares help again lines auto c h = h
    settle_spares invalid again lines auto c h = h
    settle_spares skip again lines auto c h = (_, refl, alive)
    settle_spares quit again lines auto c h = (_, refl, alive)
    settle_spares auto_keep again lines auto c h =
        let wide : ltb (length g.files) 2 ≡ false = ground arith in
        let (s', run, ok) =
          choice_spares disk cfg g.files g.files (range_from 1 (length g.files - 1)) 0 s distinct
            (inr (λ f m. m)) live
            (range_from-AllBelow (length g.files) 1 (length g.files - 1) (omega arith))
            (omega arith) (has-range_from 0 1 (length g.files - 1) (omega arith)) alive in
        (prompted false true lines s', rw (wide, run), ok)
    settle_spares (delete js) again lines auto c h =
        let (i, below, out) = left_out (length g.files) js c.1 in
        let (s', run, ok) =
          choice_spares disk cfg g.files g.files js i s distinct (inr (λ f m. m)) live c.0 below out
            alive in
        (prompted false auto lines s', rw run, ok)

    after_spares :
        (c : Command) (no_said : Bool) (again no_then : Option (Prompted W))
        (lines rest : List Text) (auto : Bool)
        → Chosen (length g.files) c
        → Spared again
        → Spared no_then
        → Spared
            (after_command disk cfg lookup (file_group g) c no_said again no_then lines rest auto s)
    unfolding after_command
    after_spares (delete js) true again no_then lines rest auto c h k = k
    after_spares (delete js) false again no_then lines rest auto c h k =
        settle_spares (delete js) again rest auto c h
    after_spares c no_said again no_then lines rest auto ch h k =
        settle_spares c again lines auto ch h

    loop_spares :
        (lines : List Text) (auto : Bool)
        → Spared (prompt_loop disk cfg lookup (file_group g) (length g.files) lines auto s)
    unfolding prompt_loop
    loop_spares [] auto = (_, refl, alive)
    loop_spares (line ∷ []) auto =
        settle_spares (read_command (length g.files) line) _ [] auto
          (read_command-Chosen (length g.files) line) (_, refl, alive)
    loop_spares (line ∷ reply ∷ rest) auto =
        after_spares (read_command (length g.files) line) (declined reply) _ _ (reply ∷ rest) rest
          auto (read_command-Chosen (length g.files) line) (loop_spares (reply ∷ rest) auto)
          (loop_spares rest auto)

-- Whatever is typed at the prompt of a file group whose copies are all live, at least two, and of
-- distinct paths, the prompt ends without a panic, and a copy of the group is still live.
pub prompt_action-survivor :
    {W : Type 0} (disk : Disk W) (cfg : Config) (lookup : DirLookup) (g : DupGroup) (s : State W)
    (lines : List Text) (auto : Bool)
    → Distinct (paths_of g.files)
    → ((f : ScannedFile) → Memᴰ f g.files → has f.path s.deleted ≡ false)
    → 2 ≤ length g.files
    → (p : Prompted W) × (prompt_action disk cfg lookup (file_group g) lines auto s ≡ some p)
      × (any_alive g.files p.state.deleted ≡ true)
unfolding prompt_action
prompt_action-survivor disk cfg lookup g s lines auto distinct live two =
    rw (length-map (λ (f : ScannedFile). f.path) g.files)
      (loop_spares disk cfg lookup g s distinct live two lines auto)

one_is_no_two : answer (codes "1") ≢ codes "2"
unfolding answer trim_space to_lower
one_is_no_two e = ground (arith, e)

reads_two : (line : Text) → answer line ≡ codes "2" → read_overlap_command line ≡ column false
unfolding read_overlap_command
reads_two line two =
    let bare : list_eq line (codes "1") ≡ false = elim (Bool-cases (list_eq line (codes "1"))) [
      | inl e ↦ absurd (one_is_no_two (ap answer (sym ((list_eq_iff line (codes "1")).0 e)) ∙ two))
      | inr e ↦ e
    ] in
    rw (two, bare)

-- two lines of one command
same_command :
    {W : Type 0} (disk : Disk W) (cfg : Config) (lookup : DirLookup) (b : DirOverlapBlock)
    (s : State W) (line other : Text) (rest : List Text) (auto : Bool)
    → read_overlap_command line ≡ read_overlap_command other
    → overlap_loop disk cfg lookup b (line ∷ rest) auto s
      ≡ overlap_loop disk cfg lookup b (other ∷ rest) auto s
unfolding overlap_loop
same_command disk cfg lookup b s line other [] auto e = rw e refl
same_command disk cfg lookup b s line other (reply ∷ rest) auto e = rw e refl

-- At the prompt of an overlap block, a line that reads `1` but for white space or its newline, and so is
-- not the bare text `1`, does whatever a line that reads `2` does in its place, with any lines after
-- it.
pub prompt_action-column_one :
    {W : Type 0} (disk : Disk W) (cfg : Config) (lookup : DirLookup) (b : DirOverlapBlock)
    (s : State W) (line two : Text) (rest : List Text) (auto : Bool)
    → answer line ≡ codes "1"
    → line ≢ codes "1"
    → answer two ≡ codes "2"
    → prompt_action disk cfg lookup (dir_overlap b) (line ∷ rest) auto s
      ≡ prompt_action disk cfg lookup (dir_overlap b) (two ∷ rest) auto s
unfolding prompt_action
prompt_action-column_one disk cfg lookup b s line two rest auto one ne reads =
    same_command disk cfg lookup b s line two rest auto
      (reads_second line one ne ∙ sym (reads_two two reads))
