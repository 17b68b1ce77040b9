-- ===== src/Scan/Reach.antt =====
-- The entries that a walk of scan.go comes to.
use dup_detector.Prelude.{◌≡◌, true, Option}
use dup_detector.Text.{Text}
use dup_detector.Scan.{Entry, Forest, entry, Walk, child_path, verdict, enters}

module _ (rel : Text → Text → Option Text) (w : Walk) where
  -- The walk of a directory's entries comes to an entry with this path: one of them, or one below a
  -- directory that it enters.
  pub data Reaches : Text → Forest → Text → Entry → Type 0 where
    first :
        {parent : Text} {e : Entry} {below rest : Forest}
        → Reaches parent (entry e below rest) (child_path parent e.name) e
    later :
        {parent path : Text} {e x : Entry} {below rest : Forest}
        → Reaches parent rest path x
        → Reaches parent (entry e below rest) path x
    inside :
        {parent path : Text} {e x : Entry} {below rest : Forest}
        → e.is_dir ≡ true
        → enters w e (verdict rel w (child_path parent e.name)) ≡ true
        → Reaches (child_path parent e.name) below path x
        → Reaches parent (entry e below rest) path x
