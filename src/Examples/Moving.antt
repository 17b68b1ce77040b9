-- ===== src/Examples/Moving.antt =====
-- Runs of the trash (trash.go) and of the copy (copy.go).
use dup_detector.Prelude.{◌≡◌, refl, true, false, not, none, some, [], ◌∷◌, arith, list_eq}
use dup_detector.Prelude.Runs.{Run}
use dup_detector.Text.{Text, codes}
use dup_detector.Scan.{child_path}
use dup_detector.Trash.{
  System, Calls, TrashState, TrashLocation, candidate, is_free, pick_name, trash_file,
}
use dup_detector.Trash.Names.{pick_name-stuck}
use dup_detector.Trash.Moves.{IsClean, IsOutcome, trash_file-IsOutcome}
use dup_detector.Copy.{Source, Target, Copied, chunk_bytes, copy_file_with_metadata}
use dup_detector.Copy.Verified.{copy_file_with_metadata-IsOutcome}

-- a trash that holds `x`, and names of at most twelve bytes
abbrev small_names : System
small_names = record {
  rel = λ top path. none;
  escape = λ segment. segment;
  abs = λ path. some path;
  base = λ path. codes "x";
  absent = λ path. not (list_eq path (codes "/t/files/x"));
  now = codes "2024-01-01T00:00:00";
}

abbrev good_calls : Calls
good_calls = record {
  makes_dir = λ path. true;
  writes = λ path. true;
  left_over = λ path. none;
  renames = λ path dest. true;
  removes = λ path. true;
}

good_calls-IsClean : IsClean small_names good_calls
good_calls-IsClean = record { nothing_left = λ info. refl; removable = λ info. refl }

abbrev home_trash : TrashLocation
home_trash = record { dir = codes "/t"; top_dir = [] }

abbrev no_trash : TrashState
no_trash = record { records = []; moved = [] }

trash_file-IsOutcome_example :
    (out : Run Text × TrashState) × (trash_file small_names good_calls 2
        (λ path. some home_trash)
        (codes "/a/x")
        no_trash
      ≡ some out)
    × IsOutcome small_names good_calls home_trash (codes "/a/x") no_trash out
unfolding is_free candidate child_path
trash_file-IsOutcome_example =
    trash_file-IsOutcome small_names good_calls 2 1 (λ path. some home_trash) (codes "/a/x")
      (codes "/a/x") home_trash no_trash good_calls-IsClean refl refl (ground arith) refl

-- a trash that cannot be searched: Lstat never says that a path is missing
abbrev locked : System
locked = record small_names { absent = λ path. false }

pick_name-stuck_example :
    pick_name locked 100 (codes "/t/files") (codes "/t") (codes "holiday") 0 ≡ none
pick_name-stuck_example =
    pick_name-stuck locked (codes "/t/files") (codes "/t") (codes "holiday") 12 (λ name long. refl)
      (ground arith) 100

abbrev two_chunks : Source
two_chunks = record {
  opens = true;
  stats = true;
  content = 1 ∷ 2 ∷ 3 ∷ [];
  breaks = λ i. false;
  size = 3;
  mod_time = 9;
}

abbrev faithful : Target
faithful = record {
  makes_dir = true;
  creates = true;
  writes = λ i. true;
  closes = true;
  keeps = λ bytes. bytes;
  reopens = true;
  reads = λ i. true;
  removes = true;
  partial = [];
  writes_sidecar = true;
  partial_sidecar = none;
}

copy_file_with_metadata-IsOutcome_example :
    dup_detector.Copy.Verified.IsOutcome
      (λ bytes. bytes)
      two_chunks
      faithful
      (chunk_bytes 2)
      true
      (record { file = none; sidecar = none })
      (copy_file_with_metadata
        (λ bytes. bytes)
        two_chunks
        faithful
        2
        true
        (record { file = none; sidecar = none }))
copy_file_with_metadata-IsOutcome_example =
    copy_file_with_metadata-IsOutcome (λ bytes. bytes) two_chunks faithful 2 true
      (record { file = none; sidecar = none })
