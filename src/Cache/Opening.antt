-- ===== src/Cache/Opening.antt =====
-- cache.go: the place of the hash cache, its owner, and opening it. The environment, the users of the
-- system and the calls of the database are parameters.
pub mod Retries
use dup_detector.Prelude.{
  ℕ, zero, suc, ◌+◌, ◌/◌, ◌<◌, Bool, true, false, not, ◌&&◌, ◌||◌, Option, none, some, List, [],
  ◌∷◌, ◌++◌, if◌then◌else◌, ltb, list_eq,
}
use dup_detector.Prelude.Runs.{Run, done, failed, ◌>>=◌}
use dup_detector.Text.{Text, codes, slash, contains}
use dup_detector.Text.Paths.{clean, dir}
use dup_detector.Files.{signed_rank}
use dup_detector.Cache.{HashCache, HashRow}

-- the environment (an unset variable is empty), whether the process is root's, the home directories of
-- users by their names, UserHomeDir, and strconv.Atoi
pub record Session : Type 0 where
  pub xdg_cache_home : Text
  pub sudo_user : Text
  pub sudo_uid : Text
  pub sudo_gid : Text
  pub is_root : Bool
  pub home_of : Text → Option Text
  pub user_home : Option Text
  pub parse_int : Text → Option ℕ

-- what Exec of a query answers at each try, and whether the other calls succeed; `rows` is the table
-- then, and `seconds` the integer part of the float64 number of seconds in a duration
pub record CacheFile : Type 0 where
  pub makes_dir : Bool
  pub opens : Bool
  pub journal : ℕ → Option Text
  pub create : ℕ → Option Text
  pub prepares : Text → Bool
  pub rows : List HashRow
  pub now : ℕ
  pub seconds : ℕ → ℕ

module _ (session : Session) where
  unfoldable pub user_home_or_empty : Text
  user_home_or_empty = elim session.user_home [ none ↦ [] | some home ↦ home ]

  -- invokingUserHome
  unfoldable pub invoking_user_home : Text
  unfolding user_home_or_empty
  invoking_user_home =
      if session.is_root
        && not (list_eq session.sudo_user [])
        && not (list_eq session.sudo_user (codes "root"))
      then elim (session.home_of session.sudo_user) [
        | none ↦ user_home_or_empty
        | some home ↦ if list_eq home [] then user_home_or_empty else home
      ]
      else user_home_or_empty

  -- DefaultCachePath
  unfoldable pub default_cache_path : Text
  unfolding invoking_user_home clean
  default_cache_path =
      let under : Text → Text = λ base. clean (base ++ codes "/dup-detector/hashes.db") in
      if not (list_eq session.xdg_cache_home [])
      then under session.xdg_cache_home
      else if list_eq invoking_user_home []
      then []
      else under (clean (invoking_user_home ++ codes "/.cache"))

  -- sudoOwner
  unfoldable pub sudo_owner : Option (ℕ × ℕ)
  sudo_owner =
      if not session.is_root
      then none
      else if list_eq session.sudo_uid [] || list_eq session.sudo_gid []
      then none
      else elim (session.parse_int session.sudo_uid) [
        | none ↦ none
        | some u ↦ elim (session.parse_int session.sudo_gid) [ none ↦ none | some g ↦ some (u, g) ]
      ]

  -- chownToInvoker: the paths that are handed over, and to whom
  unfoldable pub chown_to_invoker : Text → List (Text × (ℕ × ℕ))
  unfolding sudo_owner dir
  chown_to_invoker path = elim sudo_owner [
    | none ↦ []
    | some owner ↦
        (path, owner)
        ∷ (path ++ codes "-wal", owner)
        ∷ (path ++ codes "-shm", owner)
        ∷ (dir path, owner)
        ∷ []
  ]

-- isBusyErr
unfoldable pub is_busy_err : Option Text → Bool
unfolding contains
is_busy_err none = false
is_busy_err (some e) =
    contains e (codes "SQLITE_BUSY")
    || contains e (codes "database is locked")
    || contains e (codes "(5)")
    || contains e (codes "(517)")

-- the loop of execRetry from its i-th try, with the last error: the error it returns and the tries made
unfoldable pub retry_loop : (ℕ → Option Text) → ℕ → ℕ → Option Text → Option Text × ℕ
retry_loop exec zero i err = (err, i)
retry_loop exec (suc left) i err =
    let again = retry_loop exec left (suc i) (exec i) in
    if not (is_busy_err (exec i)) then (exec i, suc i) else again

-- execRetry; no error is not a busy one
unfoldable pub exec_retry : (ℕ → Option Text) → Option Text × ℕ
unfolding retry_loop
exec_retry exec = retry_loop exec 60 0 none

-- maxAge in seconds, where `seconds` is the integer part of Seconds
unfoldable pub max_age_seconds : (ℕ → ℕ) → ℕ → ℕ
unfolding signed_rank
max_age_seconds seconds age = if ltb (signed_rank 0) (signed_rank age) then seconds age else 0

-- OpenHashCache after the directory is there
unfoldable pub open_database : CacheFile → Bool → ℕ → Run HashCache
unfolding exec_retry max_age_seconds
open_database file rehash max_age =
    if not file.opens then failed else elim (exec_retry file.journal).0 [
      | some e ↦ failed
      | none ↦ elim (exec_retry file.create).0 [
        | some e ↦ failed
        | none ↦
            if not (file.prepares (codes "select"))
            then failed
            else if not (file.prepares (codes "upsert"))
            then failed
            else done (record {
              rows = file.rows;
              rehash = rehash;
              now = file.now;
              max_age = max_age_seconds file.seconds max_age;
              hits = 0;
              misses = 0;
              sidecar_hits = 0;
            })
      ]
    ]

-- OpenHashCache, with the paths that change their owner
unfoldable pub open_hash_cache :
    Session → CacheFile → Text → Bool → ℕ → Run HashCache × List (Text × (ℕ × ℕ))
unfolding open_database chown_to_invoker
open_hash_cache session file path rehash max_age =
    if not file.makes_dir
    then (failed, [])
    else (open_database file rehash max_age, chown_to_invoker session path)

-- Close of a cache, if there is one: the paths that change their owner
unfoldable pub close_hash_cache : Session → Option Text → List (Text × (ℕ × ℕ))
unfolding chown_to_invoker
close_hash_cache session none = []
close_hash_cache session (some path) = chown_to_invoker session path
