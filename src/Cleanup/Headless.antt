-- ===== src/Cleanup/Headless.antt =====
-- HeadlessDelete (headless.go): the queue without prompts. `none` is a panic.
pub mod Steps
pub mod Survivors
pub mod Blocks
pub mod DryRun
use dup_detector.Prelude.{Bool, Option, none, some, List, [], ◌∷◌, ◌>>=◌, if◌then◌else◌, list_eq}
use dup_detector.Text.{Text}
use dup_detector.Files.{DupGroup, TreeDupPair, DirOverlapBlock, DirLookup}
use dup_detector.Cleanup.Dispose.{Config, Disk, State}
use dup_detector.Cleanup.Actions.{
  Action, build_cleanup_actions, reresolve_action, apply_auto, apply_glob_removal,
}

module _ {W : Type 0} (disk : Disk W) (cfg : Config) (lookup : DirLookup) where
  -- what is done with an action that is not moot
  unfoldable pub headless_apply : Action → State W → Option (State W)
  headless_apply a s =
      if list_eq cfg.remove_by_glob []
      then apply_auto disk cfg a lookup s
      else apply_glob_removal disk cfg a lookup s

  unfoldable pub headless_loop : List Action → State W → Option (State W)
  headless_loop [] s = some s
  headless_loop (a ∷ actions) s = elim (reresolve_action a lookup s.deleted) [
    | none ↦ headless_loop actions s
    | some a' ↦ headless_apply a' s >>= headless_loop actions
  ]

  -- HeadlessDelete; with nothing to do the queue is empty
  unfoldable pub headless_delete :
      List TreeDupPair → List DirOverlapBlock → List DupGroup → W → Option (State W)
  unfolding headless_loop
  headless_delete tree_pairs blocks groups w =
      headless_loop (build_cleanup_actions tree_pairs blocks groups)
        (record { deleted = []; world = w })
