-- ===== src/Cache/Trust.antt =====
-- The hash cache (cache.go) tells the content of a file: it fills the interface that the check of
-- tree pairs by content asks for.
use dup_detector.Prelude.{
  ℕ, ◌≡◌, refl, sym, ap, ◌∙◌, inl, inr, true, false, not, ◌&&◌, Option, none, some, List, [], ◌∷◌,
  Memᴰ, arith, ◌==◌, list_eq, list_eq_iff, Bool-cases, Option-cases, mem-cons_cases,
}
use dup_detector.Text.{Text}
use dup_detector.Files.{ScannedFile}
use dup_detector.TreeDup.Stored.Content.{TellsContent}
use dup_detector.Cache.{
  FileMetadata, HashRow, HashCache, Storage, row_at, is_young, describes, sidecar_md5, cached_md5,
  row_of, store, hash_in, hash_of,
}
use dup_detector.Cache.Branches.{
  hash_in-sidecar, hash_in-hit, hash_in-unread, hash_in-read, hash_of-uncached_sidecar,
  hash_of-uncached_read,
}

-- What is known of a version of a file: path, size, mtime and inode.
abbrev pub Version : Type 0
Version = Text × (ℕ × (ℕ × ℕ))

abbrev pub version : ScannedFile → Version
version f = (f.path, (f.size, (f.mod_time, f.inode)))

abbrev pub row_version : HashRow → Version
row_version row = (row.path, (row.size, (row.mod_time, row.inode)))

-- The MD5 of a file that is still its scanned version, read from the file or from a sidecar with its
-- size and mtime, is the digest of that version.
pub record IsHonest (storage : Storage) (digest : Version → Text) (IsNow : Version → Type 0)
    : Type 0 where
  pub reads :
      (f : ScannedFile) (h : Text)
      → IsNow (version f)
      → storage.md5_file f.path ≡ some h
      → h ≡ digest (version f)
  pub sidecars :
      (f : ScannedFile) (meta : FileMetadata)
      → IsNow (version f)
      → storage.read_sidecar f.path ≡ some meta
      → list_eq meta.md5 [] ≡ false
      → meta.size ≡ f.size
      → meta.mod_time ≡ f.mod_time
      → meta.md5 ≡ digest (version f)

unfoldable pub rows_of : Option HashCache → List HashRow
rows_of none = []
rows_of (some c) = c.rows

-- Each row of the table has the digest of its version, if that version is there now.
abbrev pub IsValid : (Version → Text) → (Version → Type 0) → Option HashCache → Type 0
IsValid digest IsNow s =
    (row : HashRow)
    → Memᴰ row (rows_of s)
    → IsNow (row_version row)
    → row.md5 ≡ digest (row_version row)

row_at-mem :
    (path : Text) (rows : List HashRow) {row : HashRow}
    → row_at path rows ≡ some row
    → Memᴰ row rows × (row.path ≡ path)
unfolding row_at
row_at-mem path [] h = absurd (ground arith)
row_at-mem path (first ∷ rows) {row = row} h = elim (Bool-cases (list_eq first.path path)) [
  | inl e ↦
      let same : first ≡ row = let z = rw e at h in ground arith in
      (Memᴰ.head (sym same), ap (λ r. r.path) (sym same) ∙ (list_eq_iff first.path path).0 e)
  | inr e ↦ let (m, p) = row_at-mem path rows (rw e at h) in (Memᴰ.tail m, p)
]

describes-version :
    (row : HashRow) (f : ScannedFile)
    → row.path ≡ f.path
    → describes row f ≡ true
    → row_version row ≡ version f
unfolding describes
describes-version row f p h =
    let size : row.size ≡ f.size = ground arith in
    let mod_time : row.mod_time ≡ f.mod_time = ground arith in
    let inode : row.inode ≡ f.inode = ground arith in rw (p, size, mod_time, inode) refl

module _ (storage : Storage) (digest : Version → Text) (IsNow : Version → Type 0)
    (honest : IsHonest storage digest IsNow) where
  sidecar_md5-digest :
      (f : ScannedFile) (h : Text)
      → IsNow (version f)
      → sidecar_md5 storage f ≡ some h
      → h ≡ digest (version f)
  unfolding sidecar_md5
  sidecar_md5-digest f h now e = elim (Option-cases (storage.read_sidecar f.path)) [
    | inl a ↦ absurd (let z = rw (sidecar_md5, a) at e in ground arith)
    | inr (meta, a) ↦
        elim (Bool-cases
          (not (list_eq meta.md5 []) && meta.size == f.size && meta.mod_time == f.mod_time)) [
            | inr b ↦ absurd (let z = rw (sidecar_md5, a, b) at e in ground arith)
            | inl b ↦
                let same : meta.md5 ≡ h = let z = rw (sidecar_md5, a, b) at e in ground arith in
                sym same
                ∙ honest.sidecars f meta now a (ground (arith, b)) (ground (arith, b))
                    (ground (arith, b))
          ]
  ]

  cached_md5-digest :
      (f : ScannedFile) (c : HashCache) (h : Text)
      → IsValid digest IsNow (some c)
      → IsNow (version f)
      → cached_md5 storage c f ≡ some h
      → h ≡ digest (version f)
  unfolding cached_md5 rows_of
  cached_md5-digest f c h v now e = elim (Bool-cases c.rehash) [
    | inl a ↦ absurd (let z = rw (cached_md5, a) at e in ground arith)
    | inr a ↦ elim (Bool-cases (storage.selects f.path)) [
      | inr b ↦ absurd (let z = rw (cached_md5, a, b) at e in ground arith)
      | inl b ↦ elim (Option-cases (row_at f.path c.rows)) [
        | inl d ↦ absurd (let z = rw (cached_md5, a, b, d) at e in ground arith)
        | inr (row, d) ↦ elim (Bool-cases (describes row f && is_young c row)) [
          | inr k ↦ absurd (let z = rw (cached_md5, a, b, d, k) at e in ground arith)
          | inl k ↦
              let same : row.md5 ≡ h = let z = rw (cached_md5, a, b, d, k) at e in ground arith in
              let (m, p) = row_at-mem f.path c.rows d in
              let one = describes-version row f p (ground (arith, k)) in
              sym same ∙ v row m (rw one now) ∙ ap digest one
        ]
      ]
    ]
  ]

  store-IsValid :
      (f : ScannedFile) (c : HashCache) (h : Text)
      → IsValid digest IsNow (some c)
      → storage.md5_file f.path ≡ some h
      → IsValid digest IsNow (some (store storage f h c))
  unfolding store row_of rows_of
  store-IsValid f c h v e = elim (Bool-cases (storage.upserts (row_of c f h))) [
    | inr a ↦ rw a v
    | inl a ↦ rw a (λ row m now. elim (mem-cons_cases m) [
      | inl same ↦ rw same (honest.reads f h (rw same at now) e)
      | inr t ↦ v row t now
    ])
  ]

  hash_in-digest :
      (f : ScannedFile) (c : HashCache) (h : Text)
      → IsNow (version f)
      → IsValid digest IsNow (some c)
      → (hash_in storage f c).0 ≡ some h
      → h ≡ digest (version f)
  hash_in-digest f c h now v e = elim (Option-cases (sidecar_md5 storage f)) [
    | inr (k, a) ↦ sidecar_md5-digest f h now (a ∙ rw (hash_in-sidecar storage f c a) at e)
    | inl a ↦ elim (Option-cases (cached_md5 storage c f)) [
      | inr (k, b) ↦ cached_md5-digest f c h v now (b ∙ rw (hash_in-hit storage f c a b) at e)
      | inl b ↦ elim (Option-cases (storage.md5_file f.path)) [
        | inl d ↦ absurd (let z = rw (hash_in-unread storage f c a b d) at e in ground arith)
        | inr (k, d) ↦ honest.reads f h now (d ∙ rw (hash_in-read storage f c a b d) at e)
      ]
    ]
  ]

  hash_in-IsValid :
      (f : ScannedFile) (c : HashCache)
      → IsValid digest IsNow (some c)
      → IsValid digest IsNow (some (hash_in storage f c).1)
  unfolding rows_of
  hash_in-IsValid f c v = elim (Option-cases (sidecar_md5 storage f)) [
    | inr (k, a) ↦ rw (hash_in-sidecar storage f c a) v
    | inl a ↦ elim (Option-cases (cached_md5 storage c f)) [
      | inr (k, b) ↦ rw (hash_in-hit storage f c a b) v
      | inl b ↦ elim (Option-cases (storage.md5_file f.path)) [
        | inl d ↦ rw (hash_in-unread storage f c a b d) v
        | inr (h, d) ↦ rw (hash_in-read storage f c a b d) (store-IsValid f c h v d)
      ]
    ]
  ]

  uncached-digest :
      (f : ScannedFile) (h : Text)
      → IsNow (version f)
      → (hash_of storage f none).0 ≡ some h
      → h ≡ digest (version f)
  uncached-digest f h now e = elim (Option-cases (sidecar_md5 storage f)) [
    | inr (k, a) ↦ sidecar_md5-digest f h now (a ∙ rw (hash_of-uncached_sidecar storage f a) at e)
    | inl a ↦ honest.reads f h now (rw (hash_of-uncached_read storage f a) at e)
  ]

  uncached-state : (f : ScannedFile) → (hash_of storage f none).1 ≡ none
  uncached-state f = elim (Option-cases (sidecar_md5 storage f)) [
    | inr (k, a) ↦ rw (hash_of-uncached_sidecar storage f a) refl
    | inl a ↦ rw (hash_of-uncached_read storage f a) refl
  ]

  hash_of-digest :
      (f : ScannedFile) (s : Option HashCache) (h : Text)
      → IsNow (version f)
      → IsValid digest IsNow s
      → (hash_of storage f s).0 ≡ some h
      → h ≡ digest (version f)
  unfolding hash_of
  hash_of-digest f none h now v e = uncached-digest f h now e
  hash_of-digest f (some c) h now v e = hash_in-digest f c h now v e

  hash_of-IsValid :
      (f : ScannedFile) (s : Option HashCache)
      → IsValid digest IsNow s
      → IsValid digest IsNow (hash_of storage f s).1
  unfolding hash_of
  hash_of-IsValid f none v = rw (uncached-state f) v
  hash_of-IsValid f (some c) v = hash_in-IsValid f c v

  -- The hash cache tells the content of every file that is still its scanned version: with or without
  -- a cache, a hash that comes back is the digest of that version, and the rows stay valid.
  pub hash_of-TellsContent :
      TellsContent
        (hash_of storage)
        (λ f. digest (version f))
        (λ f. IsNow (version f))
        (IsValid digest IsNow)
  hash_of-TellsContent = record { is_digest = hash_of-digest; keeps = hash_of-IsValid }
