-- ===== src/Cleanup/Prompt.antt =====
-- The prompts of cleanup.go. The reader is the list of lines still to come, each with its
-- newline; ReadString at the end of the input gives the empty line. `none` is a panic.
pub mod Laws
use dup_detector.Prelude.{
  ℕ, zero, suc, Bool, true, false, not, Option, none, some, List, [], ◌∷◌, ◌++◌, if◌then◌else◌,
  ◌>>=◌, leb, ltb, has, text_eq, length, list_eq, select,
}
use dup_detector.Text.{Text, codes, trim_space, to_lower}
use dup_detector.Files.{ScannedFile, DupGroup, TreeDupPair, OverlapItem, DirOverlapBlock, DirLookup}
use dup_detector.Cleanup.Dispose.{Config, Disk, State, delete_overlap_side}
use dup_detector.Cleanup.Actions.{
  Action, tree, file_group, dir_overlap, items, build_cleanup_actions, reresolve_action, apply_auto,
  apply_indices,
}
use dup_detector.Cleanup.Indices.{parse_indices}

-- what a line asks for in promptAction; `invalid` covers the refusal to delete every copy
pub data Command : Type 0 where
  help skip quit auto_keep invalid : Command
  delete : List ℕ → Command

-- strings.TrimSpace(strings.ToLower(line)), and the same the other way round
unfoldable pub answer : Text → Text
answer line = trim_space (to_lower line)

unfoldable pub read_command : ℕ → Text → Command
unfolding answer
read_command n line =
    let a = answer line in
    if list_eq a (codes "?")
    then help
    else if list_eq a []
    then skip
    else if list_eq a (codes "s")
    then skip
    else if list_eq a (codes "q")
    then quit
    else if list_eq a (codes "a")
    then auto_keep
    else elim (parse_indices a n) [
      | none ↦ invalid
      | some js ↦ if leb n (length js) then invalid else delete js
    ]

-- what a line asks for in promptOverlap; `column true` is to delete the first column
pub data OverlapCommand : Type 0 where
  help skip quit auto_keep file_by_file invalid : OverlapCommand
  column : Bool → OverlapCommand

-- The `switch` is on the trimmed line, and `delA := line == "1"` on the line as it was read, with
-- its newline.
unfoldable pub read_overlap_command : Text → OverlapCommand
unfolding answer
read_overlap_command line =
    let a = answer line in
    if list_eq a (codes "?")
    then help
    else if list_eq a []
    then skip
    else if list_eq a (codes "s")
    then skip
    else if list_eq a (codes "q")
    then quit
    else if list_eq a (codes "a")
    then auto_keep
    else if list_eq a (codes "f")
    then file_by_file
    else if list_eq a (codes "1")
    then column (list_eq line (codes "1"))
    else if list_eq a (codes "2")
    then column (list_eq line (codes "1"))
    else invalid

unfoldable pub declined : Text → Bool
unfolding answer
declined line = list_eq (answer line) (codes "n")

-- what a prompt leaves: whether to quit, the auto mode, the lines to come, and the state
pub record Prompted (W : Type 0) : Type 0 where
  pub stop : Bool
  pub auto_mode : Bool
  pub lines : List Text
  pub state : State W

module _ {W : Type 0} where
  abbrev pub prompted : Bool → Bool → List Text → State W → Prompted W
  prompted stop auto lines s = record { stop = stop; auto_mode = auto; lines = lines; state = s }

  module _ (disk : Disk W) (cfg : Config) (lookup : DirLookup) where
    -- after a command that is no selection; `again` is the prompt on the rest of the lines
    unfoldable pub settle :
        Action → Command → Option (Prompted W) → List Text → Bool → State W → Option (Prompted W)
    settle a skip again lines auto s = some (prompted false auto lines s)
    settle a quit again lines auto s = some (prompted true auto lines s)
    settle a auto_keep again lines auto s =
        apply_auto disk cfg a lookup s >>= λ s'. some (prompted false true lines s')
    settle a help again lines auto s = again
    settle a invalid again lines auto s = again
    settle a (delete js) again lines auto s =
        apply_indices disk cfg a js lookup s >>= λ s'. some (prompted false auto lines s')

    -- a selection reads one more line, to confirm: `rest` is what follows that line
    unfoldable pub after_command :
        Action
        → Command
        → Bool
        → Option (Prompted W)
        → Option (Prompted W)
        → List Text
        → List Text
        → Bool
        → State W
        → Option (Prompted W)
    unfolding settle
    after_command a (delete js) no_said again no_then lines rest auto s =
        if no_said then no_then else settle a (delete js) again rest auto s
    after_command a c no_said again no_then lines rest auto s = settle a c again lines auto s

    -- the loop of promptAction
    unfoldable pub prompt_loop : Action → ℕ → List Text → Bool → State W → Option (Prompted W)
    unfolding after_command read_command declined
    prompt_loop a n [] auto s = some (prompted false auto [] s)
    prompt_loop a n (line ∷ []) auto s =
        settle a (read_command n line) (some (prompted false auto [] s)) [] auto s
    prompt_loop a n (line ∷ reply ∷ rest) auto s =
        let again = prompt_loop a n (reply ∷ rest) auto s in
        let no_then = prompt_loop a n rest auto s in
        after_command a (read_command n line) (declined reply) again no_then (reply ∷ rest) rest
          auto s

    -- the files of an item that are still there
    unfoldable pub live_files : OverlapItem → State W → List ScannedFile
    live_files it s = select (λ f. not (has f.path s.deleted)) (it.a_files ++ it.b_files)

    -- resolveOverlapFileByFile; `local_auto` never leaves it
    unfoldable pub resolve_items :
        List OverlapItem → List Text → Bool → State W → Option (Prompted W)
    unfolding live_files prompt_loop
    resolve_items [] lines local_auto s = some (prompted false local_auto lines s)
    resolve_items (it ∷ its) lines local_auto s =
        let live = live_files it s in
        let act = file_group (record { size = it.size; hash = []; files = live }) in
        let skipped = resolve_items its lines local_auto s in
        if ltb (length live) 2
        then skipped
        else if local_auto
        then (apply_auto disk cfg act lookup s >>= λ s'. resolve_items its lines local_auto s')
        else (prompt_loop act (length live) lines local_auto s >>= λ p.
            if p.stop then some p else resolve_items its p.lines p.auto_mode p.state)

    unfoldable pub resolve_file_by_file :
        DirOverlapBlock → List Text → Bool → State W → Option (Prompted W)
    unfolding resolve_items
    resolve_file_by_file b lines auto s =
        resolve_items b.items lines false s >>= λ p. some (prompted p.stop auto p.lines p.state)

    -- what follows a command in promptOverlap
    unfoldable pub settle_overlap :
        DirOverlapBlock
        → OverlapCommand
        → Option (Prompted W)
        → List Text
        → Bool
        → State W
        → Option (Prompted W)
    unfolding resolve_file_by_file
    settle_overlap b help again lines auto s = again
    settle_overlap b invalid again lines auto s = again
    settle_overlap b skip again lines auto s = some (prompted false auto lines s)
    settle_overlap b quit again lines auto s = some (prompted true auto lines s)
    settle_overlap b auto_keep again lines auto s =
        apply_auto disk cfg (dir_overlap b) lookup s >>= λ s'. some (prompted false true lines s')
    settle_overlap b file_by_file again lines auto s = resolve_file_by_file b lines auto s
    settle_overlap b (column del_a) again lines auto s =
        some (prompted false auto lines (delete_overlap_side disk cfg b del_a s))

    unfoldable pub after_overlap_command :
        DirOverlapBlock
        → OverlapCommand
        → Bool
        → Option (Prompted W)
        → Option (Prompted W)
        → List Text
        → List Text
        → Bool
        → State W
        → Option (Prompted W)
    unfolding settle_overlap
    after_overlap_command b (column del_a) no_said again no_then lines rest auto s =
        if no_said then no_then else settle_overlap b (column del_a) again rest auto s
    after_overlap_command b c no_said again no_then lines rest auto s =
        settle_overlap b c again lines auto s

    -- the loop of promptOverlap
    unfoldable pub overlap_loop : DirOverlapBlock → List Text → Bool → State W → Option (Prompted W)
    unfolding after_overlap_command read_overlap_command declined
    overlap_loop b [] auto s = some (prompted false auto [] s)
    overlap_loop b (line ∷ []) auto s =
        settle_overlap b (read_overlap_command line) (some (prompted false auto [] s)) [] auto s
    overlap_loop b (line ∷ reply ∷ rest) auto s =
        let again = overlap_loop b (reply ∷ rest) auto s in
        let no_then = overlap_loop b rest auto s in
        after_overlap_command b (read_overlap_command line) (declined reply) again no_then
          (reply ∷ rest) rest auto s

    -- promptAction, with its first branch
    unfoldable pub prompt_action : Action → List Text → Bool → State W → Option (Prompted W)
    unfolding overlap_loop prompt_loop items
    prompt_action (dir_overlap b) lines auto s = overlap_loop b lines auto s
    prompt_action (tree p) lines auto s =
        prompt_loop (tree p) (length (items (tree p))) lines auto s
    prompt_action (file_group g) lines auto s =
        prompt_loop (file_group g) (length (items (file_group g))) lines auto s

    -- the loop of InteractiveDelete
    unfoldable pub interactive_loop : List Action → List Text → Bool → State W → Option (State W)
    unfolding prompt_action
    interactive_loop [] lines auto s = some s
    interactive_loop (a ∷ actions) lines auto s = elim (reresolve_action a lookup s.deleted) [
      | none ↦ interactive_loop actions lines auto s
      | some a' ↦
          if auto
          then (apply_auto disk cfg a' lookup s >>= interactive_loop actions lines auto)
          else (prompt_action a' lines auto s >>= λ p.
              if p.stop then some p.state else interactive_loop actions p.lines p.auto_mode p.state)
    ]

    -- InteractiveDelete: nothing is done unless the first line says yes
    unfoldable pub interactive_delete :
        List TreeDupPair → List DirOverlapBlock → List DupGroup → List Text → W → Option (State W)
    unfolding interactive_loop
    interactive_delete tree_pairs blocks groups [] w = some (record { deleted = []; world = w })
    interactive_delete tree_pairs blocks groups (line ∷ lines) w =
        if list_eq (answer line) (codes "y")
        then interactive_loop (build_cleanup_actions tree_pairs blocks groups) lines false
            (record { deleted = []; world = w })
        else some (record { deleted = []; world = w })
