-- ===== src/Scan/Stored.antt =====
-- ScanToStore (filestore.go) stores the files that Scan returns.
use dup_detector.Prelude.{◌≡◌, refl, ap, ◌∙◌, ℕ, Option, List, [], ◌∷◌, map}
use dup_detector.Prelude.Runs.{done, ◌>>=◌, >>=-ext}
use dup_detector.Text.{Text}
use dup_detector.Files.{ScannedFile, ScanConfig}
use dup_detector.Store.{Database, FileStore, add, add_all}
use dup_detector.Scan.{Key, Root, scan, scan_to_store}
use dup_detector.Scan.Steps.{emit_all, scan_walk-scan}

-- the file with the number of its side
abbrev pub stamped : ℕ → ScannedFile → ScannedFile
stamped source f = record f { source = source }

emit_all-add_all :
    (database : Database) (source : ℕ) (files : List ScannedFile) (store : FileStore)
    → emit_all (λ f s. add database (stamped source f) s) files store
      ≡ add_all database (map (stamped source) files) store
unfolding emit_all add_all
emit_all-add_all database source [] store = refl
emit_all-add_all database source (f ∷ files) store =
    >>=-ext (add database (stamped source f) store) (emit_all-add_all database source files)

-- The scan into a store adds the files that Scan returns, in their order and with the number of their
-- side, fails where the store first fails, and otherwise ends with the keys that Scan ends with.
pub scan_to_store-add_all :
    (database : Database) (source : ℕ) (rel : Text → Text → Option Text) (cfg : ScanConfig)
    (abs_excludes : List Text) (root : Root) (seen : List Key) (store : FileStore)
    → (seen' : List Key) × (files : List ScannedFile) × (scan rel cfg abs_excludes root seen
        ≡ done (seen', files))
      × (scan_to_store database source rel cfg abs_excludes root (seen, store)
          ≡ (add_all database (map (stamped source) files) store >>= λ s. done (seen', s)))
unfolding scan_to_store
scan_to_store-add_all database source rel cfg abs_excludes root seen store =
    let (seen', files, h, e) =
      scan_walk-scan rel cfg abs_excludes root (λ f s. add database (stamped source f) s) seen
        store in
    (
      seen',
      files,
      h,
      e ∙ ap (λ r. r >>= λ s. done (seen', s)) (emit_all-add_all database source files store),
    )
