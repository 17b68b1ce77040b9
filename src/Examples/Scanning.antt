-- ===== src/Examples/Scanning.antt =====
-- Runs of the scan (scan.go): the root `/a` holds two names of one inode, a sidecar and a directory,
-- and the root `/b` holds a third name of that inode and a file of its own.
use dup_detector.Prelude.{ℕ, refl, inr, true, false, Option, some, [], ◌∷◌, Memᴰ, drop}
use dup_detector.Text.{Text, codes}
use dup_detector.Files.{ScannedFile, ScanConfig}
use dup_detector.Store.{FileStore}
use dup_detector.Scan.{
  FileInfo, Entry, empty, entry, Root, Walk, child_path, verdict, enters, has_sidecar_suffix,
  remember, several_names, in_bounds, file_of, scan,
}
use dup_detector.Scan.Reach.{Reaches, first, later, inside}
use dup_detector.Scan.Steps.{walk_of}
use dup_detector.Scan.Visits.{IsCandidate, IsShared}
use dup_detector.Scan.Listed.{IsFrom}
use dup_detector.Scan.Hardlinks.{scan_complete, scan_again}

abbrev below_root : Text → Text → Option Text
below_root root path = some (drop 3 path)

abbrev info_of : ℕ → ℕ → ℕ → FileInfo
info_of size inode links = record {
  size = size;
  mod_time = 9;
  key = some (1, inode);
  links = links;
}

abbrev file_entry : Text → FileInfo → Entry
file_entry name i = record { name = name; is_dir = false; is_regular = true; info = some i }

abbrev sub_entry : Entry
sub_entry = record {
  name = codes "d";
  is_dir = true;
  is_regular = false;
  info = some (info_of 0 8 2);
}

abbrev x_entry : Entry
x_entry = file_entry (codes "x") (info_of 5 7 3)

abbrev y_entry : Entry
y_entry = file_entry (codes "y") (info_of 5 7 3)

abbrev s_entry : Entry
s_entry = file_entry (codes "x.dup-detector-metadata.json") (info_of 3 9 1)

abbrev z_entry : Entry
z_entry = file_entry (codes "z") (info_of 6 11 1)

abbrev root_a : Root
root_a = record {
  path = codes "/a";
  key = some (1, 2);
  below =
      entry sub_entry (entry z_entry empty empty)
        (entry x_entry empty (entry s_entry empty (entry y_entry empty empty)));
}

abbrev root_b : Root
root_b = record {
  path = codes "/b";
  key = some (1, 3);
  below = entry y_entry empty (entry z_entry empty empty);
}

abbrev plain_scan : ScanConfig
plain_scan = record {
  recursive = true;
  one_file_system = true;
  min_size = 1;
  max_size = 0;
  rules = [];
}

abbrev deep_z : ScannedFile
deep_z = file_of (codes "/a/d/z") (codes "d/z") (info_of 6 11 1) 11

abbrev top_x : ScannedFile
top_x = file_of (codes "/a/x") (codes "x") (info_of 5 7 3) 7

abbrev top_z : ScannedFile
top_z = file_of (codes "/b/z") (codes "z") (info_of 6 11 1) 11

abbrev walk_a : Walk
walk_a = walk_of plain_scan [] root_a

deep_z-Reaches :
    Reaches below_root walk_a
      (codes "/a")
      root_a.below
      (child_path (codes "/a/d") (codes "z"))
      z_entry
unfolding enters verdict child_path
deep_z-Reaches = inside refl refl first

deep_z-IsCandidate :
    IsCandidate below_root walk_a (codes "/a/d/z") z_entry (codes "d/z") (info_of 6 11 1)
unfolding verdict has_sidecar_suffix
deep_z-IsCandidate = record {
  plain = refl;
  regular = refl;
  no_sidecar = refl;
  has_path = refl;
  readable = refl;
}

scan_complete_example :
    (n : ℕ) × Memᴰ (file_of (codes "/a/d/z") (codes "d/z") (info_of 6 11 1) n) (deep_z ∷ top_x ∷ [])
unfolding scan has_sidecar_suffix remember in_bounds child_path several_names
scan_complete_example =
    scan_complete below_root plain_scan [] root_a [] ((1, 7) ∷ []) (deep_z ∷ top_x ∷ [])
      (codes "/a/d/z") (codes "d/z") z_entry (info_of 6 11 1) refl deep_z-Reaches deep_z-IsCandidate
      refl (inr refl)

top_x-IsCandidate : IsCandidate below_root walk_a (codes "/a/x") x_entry (codes "x") (info_of 5 7 3)
unfolding verdict has_sidecar_suffix
top_x-IsCandidate = record {
  plain = refl;
  regular = refl;
  no_sidecar = refl;
  has_path = refl;
  readable = refl;
}

scan_again_example :
    (o : IsFrom below_root
      (walk_of plain_scan [] root_b)
      (codes "/b")
      root_b.below
      ((1, 7) ∷ [])
      top_z)
    × ¬ IsShared o.info (1, 7)
unfolding scan has_sidecar_suffix remember in_bounds child_path several_names
scan_again_example =
    scan_again below_root plain_scan plain_scan [] [] root_a root_b [] ((1, 7) ∷ []) ((1, 7) ∷ [])
      (deep_z ∷ top_x ∷ []) (top_z ∷ []) (codes "/a/x") (codes "x") x_entry (info_of 5 7 3) (1, 7)
      top_z refl refl (later first) top_x-IsCandidate (refl, refl) (Memᴰ.head refl)

abbrev new_store : FileStore
new_store = record { committed = []; open_rows = some []; count = 0 }
