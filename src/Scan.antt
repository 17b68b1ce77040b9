-- ===== src/Scan.antt =====
-- scan.go and inode.go: the walk of a tree, its filters, and the files that it hands on. The disk is a
-- parameter: for a root, its device and inode and the entries below it, in the order of WalkDir;
-- below a directory that cannot be read stand the entries that were read. Whether a relative path
-- can be formed is a parameter too.
pub mod Reach
pub mod Steps
pub mod Visits
pub mod Listed
pub mod Hardlinks
pub mod Stored
use dup_detector.Prelude.{
  ℕ, ◌+◌, ◌-◌, Bool, true, false, not, ◌&&◌, ◌||◌, Option, none, some, List, [], ◌∷◌, ◌++◌, map,
  if◌then◌else◌, ltb, ◌==◌, length, any, has, list_eq, nat_eq, pair_eq,
}
use dup_detector.Prelude.Runs.{Run, done, ◌>>=◌}
use dup_detector.Text.{Text, codes, slash, has_suffix, is_subdir}
use dup_detector.Text.Paths.{clean}
use dup_detector.Files.{ScannedFile, ScanConfig, signed_rank}
use dup_detector.Filter.{should_exclude}
use dup_detector.Store.{Database, FileStore, add}

-- the key of an inode: device and number
abbrev pub Key : Type 0
Key = ℕ × ℕ

-- what Info tells; `none` for the key where the platform has no inode
pub record FileInfo : Type 0 where
  pub size : ℕ
  pub mod_time : ℕ
  pub key : Option Key
  pub links : ℕ

pub record Entry : Type 0 where
  pub name : Text
  pub is_dir : Bool
  pub is_regular : Bool
  pub info : Option FileInfo

-- the entries of a directory: the first, what is below it, and the entries after it
pub data Forest : Type 0 where
  empty : Forest
  entry : Entry → Forest → Forest → Forest

pub record Root : Type 0 where
  pub path : Text
  pub key : Option Key
  pub below : Forest

-- Join(parent, name)
unfoldable pub child_path : Text → Text → Text
unfolding clean
child_path parent name = if list_eq parent [] then clean name else clean (parent ++ slash ∷ name)

-- tieneVariosNombres
unfoldable pub several_names : FileInfo → Bool
several_names i = elim i.key [ none ↦ true | some k ↦ ltb 1 i.links ]

-- hasSidecarSuffix
unfoldable pub has_sidecar_suffix : Text → Bool
unfolding has_suffix
has_sidecar_suffix name =
    let suffix = codes ".dup-detector-metadata.json" in
    ltb (length suffix) (length name) && has_suffix name suffix

-- the inode of a file and the keys seen after it, unless it is another name of an inode seen before
unfoldable pub remember : FileInfo → List Key → Option (ℕ × List Key)
unfolding several_names
remember i seen = elim i.key [
  | none ↦ some (0, seen)
  | some k ↦
      if not (several_names i)
      then some (k.1, seen)
      else if has k seen
      then none
      else some (k.1, k ∷ seen)
]

unfoldable pub in_bounds : ScanConfig → ℕ → Bool
unfolding signed_rank
in_bounds cfg size =
    let zero_rank = signed_rank 0 in
    not (
      ltb zero_rank (signed_rank cfg.min_size) && ltb (signed_rank size) (signed_rank cfg.min_size))
    && not (
        ltb zero_rank (signed_rank cfg.max_size)
        && ltb (signed_rank cfg.max_size) (signed_rank size))

-- the tests that a directory and a file share: left out, without a relative path, or with it
pub data Verdict : Type 0 where
  leave : Verdict
  unnamed : Verdict
  named : Text → Verdict

-- the walk of one root: its path, the options, the clean excludes and the device to stay on
pub record Walk : Type 0 where
  pub root : Text
  pub cfg : ScanConfig
  pub excludes : List Text
  pub device : Option ℕ

module _ (rel : Text → Text → Option Text) where
  unfoldable pub verdict : Walk → Text → Verdict
  unfolding clean is_subdir should_exclude
  verdict w path =
      if any (λ excl. list_eq (clean path) excl || is_subdir excl (clean path)) w.excludes
      then leave
      else elim (rel w.root path) [
        | none ↦ unnamed
        | some r ↦ if should_exclude r w.cfg.rules then leave else named r
      ]

-- the entry is known to lie on another device than the root
unfoldable pub is_elsewhere : Walk → Entry → Bool
is_elsewhere w e = elim w.device [
  | none ↦ false
  | some device ↦ elim e.info [
    | none ↦ false
    | some i ↦ elim i.key [ none ↦ false | some k ↦ not (k.0 == device) ]
  ]
]

-- whether the walk goes below a directory
unfoldable pub enters : Walk → Entry → Verdict → Bool
unfolding is_elsewhere
enters w e leave = false
enters w e unnamed = true
enters w e (named r) = w.cfg.recursive && not (is_elsewhere w e)

-- the file of a path
abbrev pub file_of : Text → Text → FileInfo → ℕ → ScannedFile
file_of path rel_path i inode = record {
  path = path;
  rel_path = rel_path;
  size = i.size;
  mod_time = i.mod_time;
  inode = inode;
  source = 0;
}

-- what the walk does on an entry that is not a directory: the file to hand on, and the keys seen
unfoldable pub visit_file : Walk → Text → Entry → Verdict → List Key → Option ScannedFile × List Key
visit_file w path e leave seen = (none, seen)
visit_file w path e unnamed seen = (none, seen)
visit_file w path e (named r) seen =
    if not e.is_regular || has_sidecar_suffix e.name then (none, seen) else elim e.info [
      | none ↦ (none, seen)
      | some i ↦ elim (remember i seen) [
        | none ↦ (none, seen)
        | some (inode, seen') ↦
            if in_bounds w.cfg i.size then (some (file_of path r i inode), seen') else (none, seen')
      ]
    ]

module _ {S : Type 0} (emit : ScannedFile → S → Run S) where
  -- hands on a file that is there
  unfoldable pub hand_on : Option ScannedFile × List Key → S → Run (List Key × S)
  hand_on (none, seen) s = done (seen, s)
  hand_on (some f, seen) s = emit f s >>= λ s'. done (seen, s')

  -- the function that WalkDir calls, on the entries of a directory
  unfoldable pub walk_dir :
      (Text → Text → Option Text) → Walk → Text → Forest → List Key × S → Run (List Key × S)
  unfolding verdict enters visit_file hand_on child_path
  walk_dir rel w parent empty st = done st
  walk_dir rel w parent (entry e below rest) (seen, s) =
      let path = child_path parent e.name in
      let v = verdict rel w path in
      let inside = walk_dir rel w path below (seen, s) in
      let here =
        if e.is_dir
        then if enters w e v then inside else done (seen, s)
        else hand_on (visit_file w path e v seen) s in
      here >>= walk_dir rel w parent rest

  -- scanWalk
  unfoldable pub scan_walk :
      (Text → Text → Option Text)
      → ScanConfig
      → List Text
      → Root
      → List Key × S
      → Run (List Key × S)
  unfolding walk_dir
  scan_walk rel cfg abs_excludes root st =
      walk_dir rel
        (record {
          root = root.path;
          cfg = cfg;
          excludes = map clean abs_excludes;
          device =
              if cfg.one_file_system
              then elim root.key [ none ↦ none | some k ↦ some k.0 ]
              else none;
        })
        root.path root.below st

-- Scan, from the keys that earlier scans have seen
unfoldable pub scan :
    (Text → Text → Option Text)
    → ScanConfig
    → List Text
    → Root
    → List Key
    → Run (List Key × List ScannedFile)
unfolding scan_walk
scan rel cfg abs_excludes root seen =
    scan_walk (λ f files. done (files ++ f ∷ [])) rel cfg abs_excludes root (seen, [])

-- ScanToStore
unfoldable pub scan_to_store :
    Database
    → ℕ
    → (Text → Text → Option Text)
    → ScanConfig
    → List Text
    → Root
    → List Key × FileStore
    → Run (List Key × FileStore)
unfolding scan_walk add
scan_to_store database source rel cfg abs_excludes root st =
    scan_walk (λ f store. add database (record f { source = source }) store) rel cfg abs_excludes
      root st
