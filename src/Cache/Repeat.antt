-- ===== src/Cache/Repeat.antt =====
-- What the hash cache (cache.go) keeps of a hash that it has computed.
use dup_detector.Prelude.{
  ℕ, ◌+◌, ◌≤◌, ◌≡◌, refl, ap, ◌∙◌, inl, inr, true, false, Option, none, some, List, ◌∷◌, arith,
  list_eq_iff, Option-cases,
}
use dup_detector.Text.{Text}
use dup_detector.Files.{ScannedFile, signed_rank}
use dup_detector.Cache.Branches.{
  hash_in-sidecar, hash_in-hit, hash_in-unread, hash_in-read, hash_of-uncached_sidecar,
  hash_of-uncached_read,
}
use dup_detector.Cache.{
  HashRow, HashCache, Storage, sub64, row_at, is_young, describes, sidecar_md5, cached_md5, row_of,
  store, hash_in, hash_of,
}

describes-row_of : (c : HashCache) (f : ScannedFile) (h : Text) → describes (row_of c f h) f ≡ true
unfolding describes row_of
describes-row_of c f h = ground arith

sub64_self : (a : ℕ) → sub64 a a ≡ 0
unfolding sub64
sub64_self a = omega arith

is_young-row_of :
    (c : HashCache) (f : ScannedFile) (h : Text)
    → signed_rank 0 ≤ signed_rank c.max_age
    → is_young c (row_of c f h) ≡ true
unfolding is_young row_of
is_young-row_of c f h age = rw (sub64_self c.now) (ground arith)

module _ (storage : Storage) (read : Text → Option Text) where
  -- the same storage, with other contents in the files
  abbrev pub reread : Storage
  reread = record storage { md5_file = read }

  sidecar_md5-reread : (f : ScannedFile) → sidecar_md5 reread f ≡ sidecar_md5 storage f
  unfolding sidecar_md5
  sidecar_md5-reread f = refl

  cached_md5-reread :
      (f : ScannedFile) (c : HashCache) (n : ℕ)
      → cached_md5 reread (record c { hits = n }) f ≡ cached_md5 storage c f
  unfolding cached_md5 is_young
  cached_md5-reread f c n = refl

  cached_md5-any :
      (f : ScannedFile) (c : HashCache) → cached_md5 reread c f ≡ cached_md5 storage c f
  unfolding cached_md5
  cached_md5-any f c = refl

  row_at-first :
      (path : Text) (row : HashRow) (rows : List HashRow)
      → row.path ≡ path
      → row_at path (row ∷ rows) ≡ some row
  unfolding row_at
  row_at-first path row rows e = rw ((list_eq_iff row.path path).1 e) refl

  cached_md5-row :
      (f : ScannedFile) (c : HashCache) {row : HashRow}
      → c.rehash ≡ false
      → storage.selects f.path ≡ true
      → row_at f.path c.rows ≡ some row
      → describes row f ≡ true
      → is_young c row ≡ true
      → cached_md5 storage c f ≡ some row.md5
  unfolding cached_md5
  cached_md5-row f c fresh selects at fits young =
      rw (cached_md5, fresh, selects, at, fits, young) refl

  hash_in-cached :
      (f : ScannedFile) (c : HashCache) {h : Text}
      → sidecar_md5 storage f ≡ none
      → cached_md5 storage c f ≡ some h
      → (hash_in storage f c).0 ≡ some h
  hash_in-cached f c a b = ap (λ x. x.0) (hash_in-hit storage f c a b)

  store-row :
      (f : ScannedFile) (h : Text) (c : HashCache)
      → storage.upserts (row_of c f h) ≡ true
      → store storage f h c ≡ record c { rows = row_of c f h ∷ c.rows }
  unfolding store
  store-row f h c upserts = rw upserts refl

  cached_md5-stored :
      (f : ScannedFile) (h : Text) (c : HashCache)
      → c.rehash ≡ false
      → signed_rank 0 ≤ signed_rank c.max_age
      → storage.selects f.path ≡ true
      → cached_md5 storage (record c { rows = row_of c f h ∷ c.rows; misses = c.misses + 1 }) f
        ≡ some h
  unfolding row_of is_young
  cached_md5-stored f h c fresh age selects =
      cached_md5-row f (record c { rows = row_of c f h ∷ c.rows; misses = c.misses + 1 }) fresh
        selects (row_at-first f.path (row_of c f h) c.rows refl) (describes-row_of c f h)
        (is_young-row_of c f h age)

  -- A hash that Hash returns is returned again, whatever the file holds by then: if the cache was not
  -- told to hash anew, its age limit is not negative, and the database reads the path and has written
  -- the row.
  pub hash_in_again :
      (f : ScannedFile) (c : HashCache) (h : Text)
      → c.rehash ≡ false
      → signed_rank 0 ≤ signed_rank c.max_age
      → storage.selects f.path ≡ true
      → storage.upserts (row_of c f h) ≡ true
      → (hash_in storage f c).0 ≡ some h
      → (hash_in reread f (hash_in storage f c).1).0 ≡ some h
  hash_in_again f c h fresh age selects upserts e = elim (Option-cases (sidecar_md5 storage f)) [
    | inr (k, a) ↦
        ap (λ x. x.0) (hash_in-sidecar reread f _ (sidecar_md5-reread f ∙ a))
        ∙ rw (hash_in-sidecar storage f c a) at e
    | inl a ↦ elim (Option-cases (cached_md5 storage c f)) [
      | inr (k, b) ↦
          (rw (hash_in-hit storage f c a b) (
              ap (λ x. x.0)
                (hash_in-hit reread f _ (sidecar_md5-reread f ∙ a) (cached_md5-reread f c _ ∙ b)))
            ∙ rw (hash_in-hit storage f c a b) at e)
      | inl b ↦ elim (Option-cases (storage.md5_file f.path)) [
        | inl d ↦ absurd (let z = rw (hash_in-unread storage f c a b d) at e in ground arith)
        | inr (k, d) ↦
            let same : k ≡ h = let z = rw (hash_in-read storage f c a b d) at e in ground arith in
            let written : storage.upserts (row_of c f k) ≡ true = rw same upserts in
            rw (hash_in-read storage f c a b d, store-row f k c written, ← same)
              (ap (λ x. x.0)
                (hash_in-hit reread f _ (sidecar_md5-reread f ∙ a)
                  (cached_md5-any f _ ∙ cached_md5-stored f k c fresh age selects)))
      ]
    ]
  ]

cached_md5-rehash :
    (storage : Storage) (f : ScannedFile) (c : HashCache)
    → c.rehash ≡ true
    → cached_md5 storage c f ≡ none
unfolding cached_md5
cached_md5-rehash storage f c anew = rw (cached_md5, anew) refl

-- On a cache that was told to hash anew, Hash answers as it does without a cache: no row is used, but
-- a sidecar is.
pub hash_in-rehash :
    (storage : Storage) (f : ScannedFile) (c : HashCache)
    → c.rehash ≡ true
    → (hash_in storage f c).0 ≡ (hash_of storage f none).0
hash_in-rehash storage f c anew =
    let b = cached_md5-rehash storage f c anew in
    elim (Option-cases (sidecar_md5 storage f)) [
      | inr (k, a) ↦ rw (hash_in-sidecar storage f c a, hash_of-uncached_sidecar storage f a) refl
      | inl a ↦ elim (Option-cases (storage.md5_file f.path)) [
        | inl d ↦ rw (hash_in-unread storage f c a b d, hash_of-uncached_read storage f a, d) refl
        | inr (k, d) ↦
            rw (hash_in-read storage f c a b d, hash_of-uncached_read storage f a, d) refl
      ]
    ]
