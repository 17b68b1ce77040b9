-- ===== src/Cache/Counts.antt =====
-- What the counters of the hash cache (cache.go) count.
use dup_detector.Prelude.{
  ◌+◌, ◌≡◌, refl, ap, ◌⊎◌, inl, inr, none, some, arith, Bool-cases, Option-cases,
}
use dup_detector.Text.{Text}
use dup_detector.Files.{ScannedFile}
use dup_detector.Cache.Branches.{hash_in-sidecar, hash_in-hit, hash_in-unread, hash_in-read}
use dup_detector.Cache.{HashCache, Storage, sidecar_md5, cached_md5, row_of, store, hash_in}

read_counts :
    (storage : Storage) (f : ScannedFile) (h : Text) (c : HashCache)
    → (store storage f h c).hits
        + ((store storage f h c).misses + 1)
        + (store storage f h c).sidecar_hits
      ≡ c.hits + c.misses + c.sidecar_hits + 1
unfolding store
read_counts storage f h c = elim (Bool-cases (storage.upserts (row_of c f h))) [
  | inl u ↦ rw u (omega arith)
  | inr u ↦ rw u (omega arith)
]

-- Every call of Hash on a cache that returns a hash adds one to exactly one of the three counters,
-- and one that fails leaves the cache as it was: so it fails only if there is no sidecar, no row and
-- no file that it can read.
pub hash_in-counts :
    (storage : Storage) (f : ScannedFile) (c : HashCache)
    → ((h : Text) × ((hash_in storage f c).0 ≡ some h)
        × ((hash_in storage f c).1.hits
              + (hash_in storage f c).1.misses
              + (hash_in storage f c).1.sidecar_hits
            ≡ c.hits + c.misses + c.sidecar_hits + 1))
      ⊎ (((hash_in storage f c).0 ≡ none)
          × ((hash_in storage f c).1 ≡ c)
          × (sidecar_md5 storage f ≡ none)
          × (cached_md5 storage c f ≡ none)
          × (storage.md5_file f.path ≡ none))
hash_in-counts storage f c = elim (Option-cases (sidecar_md5 storage f)) [
  | inr (k, a) ↦ rw (hash_in-sidecar storage f c a) (inl (k, refl, ground arith))
  | inl a ↦ elim (Option-cases (cached_md5 storage c f)) [
    | inr (k, b) ↦ rw (hash_in-hit storage f c a b) (inl (k, refl, ground arith))
    | inl b ↦ elim (Option-cases (storage.md5_file f.path)) [
      | inl d ↦
          inr (
            let e = hash_in-unread storage f c a b d in (ap (λ x. x.0) e, ap (λ x. x.1) e, a, b, d))
      | inr (h, d) ↦ rw (hash_in-read storage f c a b d) (inl (h, refl, read_counts storage f h c))
    ]
  ]
]
