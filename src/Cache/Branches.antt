-- ===== src/Cache/Branches.antt =====
-- The four ways of Hash (cache.go) on a cache: a sidecar, a row, a failed read and a read.
use dup_detector.Prelude.{◌≡◌, refl, none, some, ◌+◌}
use dup_detector.Text.{Text}
use dup_detector.Files.{ScannedFile}
use dup_detector.Cache.{HashCache, Storage, sidecar_md5, cached_md5, store, hash_in, hash_of}

module _ (storage : Storage) (f : ScannedFile) (c : HashCache) where
  pub hash_in-sidecar :
      {h : Text}
      → sidecar_md5 storage f ≡ some h
      → hash_in storage f c ≡ (some h, record c { sidecar_hits = c.sidecar_hits + 1 })
  unfolding hash_in
  hash_in-sidecar a = rw (hash_in, a) refl

  pub hash_in-hit :
      {h : Text}
      → sidecar_md5 storage f ≡ none
      → cached_md5 storage c f ≡ some h
      → hash_in storage f c ≡ (some h, record c { hits = c.hits + 1 })
  unfolding hash_in
  hash_in-hit a b = rw (hash_in, a, b) refl

  pub hash_in-unread :
      sidecar_md5 storage f ≡ none
      → cached_md5 storage c f ≡ none
      → storage.md5_file f.path ≡ none
      → hash_in storage f c ≡ (none, c)
  unfolding hash_in
  hash_in-unread a b d = rw (hash_in, a, b, d) refl

  pub hash_in-read :
      {h : Text}
      → sidecar_md5 storage f ≡ none
      → cached_md5 storage c f ≡ none
      → storage.md5_file f.path ≡ some h
      → hash_in storage f c
        ≡ (some h, let c' = store storage f h c in record c' { misses = c'.misses + 1 })
  unfolding hash_in
  hash_in-read a b d = rw (hash_in, a, b, d) refl

module _ (storage : Storage) (f : ScannedFile) where
  pub hash_of-uncached_sidecar :
      {h : Text} → sidecar_md5 storage f ≡ some h → hash_of storage f none ≡ (some h, none)
  unfolding hash_of
  hash_of-uncached_sidecar a = rw (hash_of, a) refl

  pub hash_of-uncached_read :
      sidecar_md5 storage f ≡ none → hash_of storage f none ≡ (storage.md5_file f.path, none)
  unfolding hash_of
  hash_of-uncached_read a = rw (hash_of, a) refl
