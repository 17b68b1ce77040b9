-- ===== src/Store/Batches.antt =====
-- The batches of Add and the commit of Finalize (filestore.go) lose no file.
use dup_detector.Prelude.{
  ◌⊎◌, ℕ, ◌+◌, ◌%◌, ◌≡◌, refl, sym, ap, ◌∙◌, inl, inr, true, none, some, List, [], ◌∷◌, ◌++◌, arith,
  ◌==◌, length, length-append, Bool-cases,
}
use mathlib.Core.List.{append_assoc, append-nil}
use dup_detector.Prelude.Runs.{Run, failed, done, ◌>>=◌, >>=-eq-done}
use dup_detector.Text.{codes}
use dup_detector.Files.{ScannedFile}
use dup_detector.Store.{Database, FileStore, new_file_store, add, add_all, commit_open, finalize}

-- The store has an open transaction, and holds these files in the order in which they came.
pub record Holds (files : List ScannedFile) (s : FileStore) : Type 0 where
  pub rows : List ScannedFile
  pub is_open : s.open_rows ≡ some rows
  pub all : s.committed ++ rows ≡ files
  pub counted : s.count ≡ length files

-- Each database call that filling a store makes succeeds.
pub record IsHealthy (database : Database) : Type 0 where
  pub opens : database.opens ≡ true
  pub creates : database.creates ≡ true
  pub prepares : database.prepares ≡ true
  pub inserts : (f : ScannedFile) (n : ℕ) → database.inserts f n ≡ true
  pub commits : (n : ℕ) → database.commits n ≡ true
  pub begins : (n : ℕ) → database.begins n ≡ true
  pub sizes : database.indexes (codes "idx_size") ≡ true
  pub paths : database.indexes (codes "idx_path") ≡ true

-- the writes of a scan: a new store, a row for each file, and the last commit with the indexes
unfoldable pub fill : Database → List ScannedFile → Run FileStore
unfolding new_file_store add_all finalize
fill database files =
    new_file_store database >>= λ s. add_all database files s >>= λ s'. finalize database s'

module _ (database : Database) where
  add-Holds :
      (f : ScannedFile) (files : List ScannedFile) (s s' : FileStore)
      → Holds files s
      → add database f s ≡ done s'
      → Holds (files ++ f ∷ []) s'
  unfolding add
  add-Holds f files s s' h e =
      let n = s.count + 1 in
      let q = h.all in
      let len = length-append files (f ∷ []) in
      elim (Bool-cases (database.inserts f s.count)) [
        | inr a ↦ absurd (ground (arith, h.is_open, e, a))
        | inl a ↦ elim (Bool-cases (n % 50000 == 0)) [
          | inr b ↦
              let next : FileStore = record s { open_rows = some (h.rows ++ f ∷ []); count = n } in
              let same : next ≡ s' = ground (arith, h.is_open, e, a, b) in
              rw (← same) (record {
                rows = h.rows ++ f ∷ [];
                is_open = refl;
                all = sym (append_assoc s.committed h.rows (f ∷ [])) ∙ ap (λ l. l ++ f ∷ []) q;
                counted = omega (arith, h.counted, len);
              })
          | inl b ↦ elim (Bool-cases (database.commits n)) [
            | inr c ↦ absurd (ground (arith, h.is_open, e, a, b, c))
            | inl c ↦ elim (Bool-cases (database.begins n)) [
              | inr d ↦ absurd (ground (arith, h.is_open, e, a, b, c, d))
              | inl d ↦
                  let next : FileStore = record {
                    committed = s.committed ++ h.rows ++ f ∷ [];
                    open_rows = some [];
                    count = n;
                  } in
                  let same : next ≡ s' = ground (arith, h.is_open, e, a, b, c, d) in
                  rw (← same) (record {
                    rows = [];
                    is_open = refl;
                    all = append-nil (s.committed ++ h.rows ++ f ∷ []) ∙ ap (λ l. l ++ f ∷ []) q;
                    counted = omega (arith, h.counted, len);
                  })
            ]
          ]
        ]
      ]

  add_all-Holds :
      (more files : List ScannedFile) (s s' : FileStore)
      → Holds files s
      → add_all database more s ≡ done s'
      → Holds (files ++ more) s'
  unfolding add_all
  add_all-Holds [] files s s' h e =
      let same : s ≡ s' = ground arith in rw (append-nil files, ← same) h
  add_all-Holds (f ∷ more) files s s' h e =
      let (t, a, b) = >>=-eq-done (add database f s) (λ t. add_all database more t) e in
      rw (append_assoc files (f ∷ []) more) at
        (add_all-Holds more (files ++ f ∷ []) t s' (add-Holds f files s t h a) b)

  finalize-all :
      (files : List ScannedFile) (s s' : FileStore)
      → Holds files s
      → finalize database s ≡ done s'
      → (s'.committed ≡ files) × (s'.open_rows ≡ none) × (s'.count ≡ length files)
  unfolding finalize commit_open
  finalize-all files s s' h e =
      let full : FileStore = record s { committed = s.committed ++ h.rows; open_rows = none } in
      elim (Bool-cases (database.commits s.count)) [
        | inr a ↦ absurd (ground (arith, h.is_open, e, a))
        | inl a ↦ elim (Bool-cases (database.indexes (codes "idx_size"))) [
          | inr b ↦ absurd (ground (arith, h.is_open, e, a, b))
          | inl b ↦ elim (Bool-cases (database.indexes (codes "idx_path"))) [
            | inr c ↦ absurd (ground (arith, h.is_open, e, a, b, c))
            | inl c ↦
                let same : full ≡ s' = ground (arith, h.is_open, e, a, b, c) in
                rw (← same) (h.all, refl, h.counted)
          ]
        ]
      ]

  add-done :
      (healthy : IsHealthy database) (f : ScannedFile) (files : List ScannedFile) (s : FileStore)
      → Holds files s
      → (s' : FileStore) × (add database f s ≡ done s')
  unfolding add
  add-done healthy f files s h =
      let n = s.count + 1 in
      let a = healthy.inserts f s.count in
      let c = healthy.commits n in
      let d = healthy.begins n in
      elim (Bool-cases (n % 50000 == 0)) [
        | inl b ↦ (
          record { committed = s.committed ++ h.rows ++ f ∷ []; open_rows = some []; count = n },
          ground (arith, h.is_open, a, b, c, d),
        )
        | inr b ↦ (
          record s { open_rows = some (h.rows ++ f ∷ []); count = n },
          ground (arith, h.is_open, a, b),
        )
      ]

  add_all-done :
      (healthy : IsHealthy database) (more files : List ScannedFile) (s : FileStore)
      → Holds files s
      → (s' : FileStore) × (add_all database more s ≡ done s')
  unfolding add_all
  add_all-done healthy [] files s h = (s, refl)
  add_all-done healthy (f ∷ more) files s h =
      let (t, e) = add-done healthy f files s h in
      let (s', d) = add_all-done healthy more (files ++ f ∷ []) t (add-Holds f files s t h e) in
      (s', rw e d)

  finalize-done :
      (healthy : IsHealthy database) (files : List ScannedFile) (s : FileStore)
      → Holds files s
      → (s' : FileStore) × (finalize database s ≡ done s')
  unfolding finalize commit_open
  finalize-done healthy files s h =
      let a = healthy.commits s.count in
      (
        record s { committed = s.committed ++ h.rows; open_rows = none },
        ground (arith, h.is_open, a, healthy.sizes, healthy.paths),
      )

  new_file_store_cases :
      (new_file_store database ≡ done (record { committed = []; open_rows = some []; count = 0 }))
      ⊎ (new_file_store database ≡ failed)
  unfolding new_file_store
  new_file_store_cases = elim (Bool-cases database.opens) [
    | inr e ↦ inr (rw e refl)
    | inl a ↦ elim (Bool-cases database.creates) [
      | inr e ↦ inr (rw (a, e) refl)
      | inl b ↦ elim (Bool-cases database.prepares) [
        | inr e ↦ inr (rw (a, b, e) refl)
        | inl c ↦ elim (Bool-cases (database.begins 0)) [
          | inr e ↦ inr (rw (a, b, c, e) refl)
          | inl d ↦ inl (rw (a, b, c, d) refl)
        ]
      ]
    ]
  ]

  new_file_store-done :
      IsHealthy database
      → new_file_store database ≡ done (record { committed = []; open_rows = some []; count = 0 })
  unfolding new_file_store
  new_file_store-done healthy =
      rw (healthy.opens, healthy.creates, healthy.prepares, healthy.begins 0) refl

  fill-all :
      (files : List ScannedFile)
      → ((s : FileStore)
          → fill database files ≡ done s
          → (s.committed ≡ files) × (s.open_rows ≡ none) × (s.count ≡ length files))
        × (IsHealthy database → (s : FileStore) × (fill database files ≡ done s))
  unfolding fill
  fill-all files =
      let start : FileStore = record { committed = []; open_rows = some []; count = 0 } in
      let begin : Holds [] start = record {
        rows = [];
        is_open = refl;
        all = refl;
        counted = refl;
      } in
      (
        λ s e. elim new_file_store_cases [
          | inr a ↦ absurd (let e' = rw a at e in ground (arith, e'))
          | inl a ↦
              let (t, b, c) =
                >>=-eq-done (add_all database files start) (λ t. finalize database t) (rw a at e) in
              finalize-all files t s (add_all-Holds files [] start t begin b) c
        ],
        λ healthy.
            let (t, b) = add_all-done healthy files [] start begin in
            let (s, c) = finalize-done healthy files t (add_all-Holds files [] start t begin b) in
            (s, rw (new_file_store-done healthy, b) c),
      )

  -- With a database whose calls succeed, filling a store with the files of a scan succeeds, and the
  -- store then holds exactly these files, in their order, all of them committed, and counts them,
  -- whatever the number of batches.
  pub fill-committed :
      (files : List ScannedFile)
      → IsHealthy database
      → (s : FileStore) × (fill database files ≡ done s)
        × (s.committed ≡ files)
        × (s.open_rows ≡ none)
        × (s.count ≡ length files)
  fill-committed files healthy =
      let (s, e) = (fill-all files).1 healthy in
      let (all, closed, counted) = (fill-all files).0 s e in (s, e, all, closed, counted)
