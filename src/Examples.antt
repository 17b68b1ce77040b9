-- ===== src/Examples.antt =====
-- Sample data for the tests: two roots, `/a` and `/b`, that hold the same two files.
pub mod Cleaning
pub mod Finding
pub mod Storing
pub mod Scanning
pub mod Moving
pub mod Running
pub mod Opening
use dup_detector.Prelude.{
  ℕ, suc, ◌≡◌, refl, Bool, true, false, Option, none, some, List, [], ◌∷◌, if◌then◌else◌, ◌==◌,
  text_eq, Distinct,
}
use dup_detector.Text.{Text, codes}
use dup_detector.Files.{ScannedFile, DupGroup, TreeDupPair, OverlapItem, DirOverlapBlock, DirLookup}
use dup_detector.Cleanup.Dispose.{Config, Disk, State, paths_of}

abbrev pub a_one : ScannedFile
a_one = record {
  path = codes "/a/x";
  rel_path = codes "x";
  size = 5;
  mod_time = 9;
  inode = 1;
  source = 0;
}

abbrev pub b_one : ScannedFile
b_one = record {
  path = codes "/b/x";
  rel_path = codes "x";
  size = 5;
  mod_time = 9;
  inode = 2;
  source = 1;
}

abbrev pub a_two : ScannedFile
a_two = record {
  path = codes "/a/y";
  rel_path = codes "y";
  size = 7;
  mod_time = 9;
  inode = 3;
  source = 0;
}

abbrev pub b_two : ScannedFile
b_two = record {
  path = codes "/b/y";
  rel_path = codes "y";
  size = 7;
  mod_time = 9;
  inode = 4;
  source = 1;
}

abbrev pub four_files : List ScannedFile
four_files = a_one ∷ a_two ∷ b_one ∷ b_two ∷ []

abbrev pub pair_files : List ScannedFile
pair_files = a_one ∷ b_one ∷ []

abbrev pub pair_group : DupGroup
pair_group = record { size = 5; hash = []; files = pair_files }

abbrev pub other_group : DupGroup
other_group = record { size = 7; hash = []; files = a_two ∷ b_two ∷ [] }

abbrev pub pair_item : OverlapItem
pair_item = record { size = 5; a_files = a_one ∷ []; b_files = b_one ∷ [] }

abbrev pub pair_block : DirOverlapBlock
pair_block = record {
  root_a = codes "/a";
  root_b = codes "/b";
  items = pair_item ∷ [];
  shared_bytes = 5;
}

abbrev pub column_of : ScannedFile → Text
column_of f = if f.source == 0 then codes "/a" else codes "/b"

-- a disk that counts the files it removes, and has no directory
abbrev pub counting_disk : Disk ℕ
counting_disk = record {
  remove = λ path w. (true, suc w);
  trash_file = λ path w. (true, suc w);
  read_dir = λ path w. none;
  path_max = 8;
}

abbrev pub plain_config : Config
plain_config = record { dry_run = false; trash = false; remove_by_glob = [] }

abbrev pub start : State ℕ
start = record { deleted = []; world = 0 }

abbrev pub no_lookup : DirLookup
no_lookup dir = []

pub pair_files-Distinct : Distinct (paths_of pair_files)
pair_files-Distinct = (refl, (refl, tt))
