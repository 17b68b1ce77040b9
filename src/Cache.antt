-- ===== src/Cache.antt =====
-- cache.go and the part of metadata.go that it reads: the hash of a file, from its sidecar, from the
-- table of hashes, or by reading it. The sidecar that the disk holds for a path, the read of a file
-- and which database calls succeed are parameters; of a sidecar the media information is left out.
-- A row of the table that is newer stands before an older one.
pub mod Branches
pub mod Trust
pub mod Counts
pub mod Repeat
pub mod Opening
use dup_detector.Prelude.{
  ℕ, zero, suc, ◌+◌, ◌-◌, ◌%◌, Bool, true, false, not, ◌&&◌, ◌||◌, Option, none, some, List, [],
  ◌∷◌, if◌then◌else◌, leb, ◌==◌, list_eq,
}
use dup_detector.Text.{Text}
use dup_detector.Files.{ScannedFile, word, signed_rank}

-- FileMetadata, without its media
pub record FileMetadata : Type 0 where
  pub size : ℕ
  pub mod_time : ℕ
  pub md5 : Text
  pub chunk_size : ℕ
  pub chunk_md5 : List Text

-- a row of the table `hashes`
pub record HashRow : Type 0 where
  pub path : Text
  pub size : ℕ
  pub mod_time : ℕ
  pub inode : ℕ
  pub md5 : Text
  pub seen : ℕ

pub record HashCache : Type 0 where
  pub rows : List HashRow
  pub rehash : Bool
  pub now : ℕ
  pub max_age : ℕ
  pub hits : ℕ
  pub misses : ℕ
  pub sidecar_hits : ℕ

-- what lies outside: the parsed sidecar of a path, the MD5 of what a file holds, a SELECT by its
-- path that comes back without a database error, an UPSERT that is carried out
pub record Storage : Type 0 where
  pub read_sidecar : Text → Option FileMetadata
  pub md5_file : Text → Option Text
  pub selects : Text → Bool
  pub upserts : HashRow → Bool

-- a - b on int64
unfoldable pub sub64 : ℕ → ℕ → ℕ
sub64 a b = (a + (word - b % word)) % word

-- SELECT ... WHERE path = ?
unfoldable pub row_at : Text → List HashRow → Option HashRow
row_at path [] = none
row_at path (row ∷ rows) =
    let rest = row_at path rows in if list_eq row.path path then some row else rest

-- maxAge == 0 || now - seen <= maxAge
unfoldable pub is_young : HashCache → HashRow → Bool
unfolding sub64 signed_rank
is_young c row = c.max_age == 0 || leb (signed_rank (sub64 c.now row.seen)) (signed_rank c.max_age)

unfoldable pub describes : HashRow → ScannedFile → Bool
describes row f = row.size == f.size && row.mod_time == f.mod_time && row.inode == f.inode

unfoldable pub row_of : HashCache → ScannedFile → Text → HashRow
row_of c f md5 = record {
  path = f.path;
  size = f.size;
  mod_time = f.mod_time;
  inode = f.inode;
  md5 = md5;
  seen = c.now;
}

module _ (storage : Storage) where
  -- sidecarMD5
  unfoldable pub sidecar_md5 : ScannedFile → Option Text
  sidecar_md5 f = elim (storage.read_sidecar f.path) [
    | none ↦ none
    | some meta ↦
        if not (list_eq meta.md5 []) && meta.size == f.size && meta.mod_time == f.mod_time
        then some meta.md5
        else none
  ]

  -- the lookup of Hash: the hash of a row that is there, fits and is young enough
  unfoldable pub cached_md5 : HashCache → ScannedFile → Option Text
  unfolding row_at is_young describes
  cached_md5 c f =
      if c.rehash
      then none
      else if not (storage.selects f.path)
      then none
      else elim (row_at f.path c.rows) [
        | none ↦ none
        | some row ↦ if describes row f && is_young c row then some row.md5 else none
      ]

  -- store
  unfoldable pub store : ScannedFile → Text → HashCache → HashCache
  unfolding row_of
  store f md5 c =
      if storage.upserts (row_of c f md5) then record c { rows = row_of c f md5 ∷ c.rows } else c

  -- Hash on a cache that is there
  unfoldable pub hash_in : ScannedFile → HashCache → Option Text × HashCache
  unfolding store
  hash_in f c = elim (sidecar_md5 f) [
    | some md5 ↦ (some md5, record c { sidecar_hits = c.sidecar_hits + 1 })
    | none ↦ elim (cached_md5 c f) [
      | some md5 ↦ (some md5, record c { hits = c.hits + 1 })
      | none ↦ elim (storage.md5_file f.path) [
        | none ↦ (none, c)
        | some h ↦ (some h, let c' = store f h c in record c' { misses = c'.misses + 1 })
      ]
    ]
  ]

  -- Hash; `none` for the cache is nil
  unfoldable pub hash_of : ScannedFile → Option HashCache → Option Text × Option HashCache
  unfolding hash_in
  hash_of f (some c) = let (h, c') = hash_in f c in (h, some c')
  hash_of f none = elim (sidecar_md5 f) [
    | some md5 ↦ (some md5, none)
    | none ↦ (storage.md5_file f.path, none)
  ]

-- Stats
unfoldable pub stats : Option HashCache → ℕ × ℕ
stats none = (0, 0)
stats (some c) = (c.hits, c.misses)

-- SidecarHits
unfoldable pub sidecar_hits_of : Option HashCache → ℕ
sidecar_hits_of none = 0
sidecar_hits_of (some c) = c.sidecar_hits
