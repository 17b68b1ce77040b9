-- ===== src/Examples/Opening.antt =====
-- Runs of the search for a trash, of the copy of a directory and of what it stores of media (trash.go,
-- copy.go, media.go).
use dup_detector.Prelude.{
  none, ℕ, ◌≡◌, ◌≤◌, ◌*◌, refl, ◌⊎◌, not, some, List, [], ◌∷◌, Permᴰ, arith, ◌==◌, length, list_eq,
  if◌then◌else◌,
}
use dup_detector.Prelude.Runs.{Run, done, failed}
use dup_detector.Text.{Text, codes, has_prefix}
use dup_detector.Text.Paths.{clean}
use dup_detector.Media.{
  Durations, Stream, FfprobeOutput, MediaMetadata, capture_keys, first_tag, is_empty, blank,
  parse_ffprobe,
}
use dup_detector.Media.Sized.{HasSizeOf, first_sized}
use dup_detector.Media.Streams.{first_time, parse_ffprobe-HasSizeOf}
use dup_detector.Trash.Place.{Volumes, device_of, mount_point_of, IsTop, mount_point_of-IsTop}
use dup_detector.Cache.{FileMetadata}
use dup_detector.Copy.Tree.{Job, collect_results}
use dup_detector.Copy.Pool.{Pool, Step, start_pool, send, receive, finish, Runs, here, next}
use dup_detector.Copy.Pool.Laws.{IsKept, Runs-IsComplete, Runs-collect_results}

-- `/mnt` and all below it are on device 2, all else on device 1
abbrev two_volumes : Volumes
two_volumes = record {
  stat = λ path. some (if has_prefix path (codes "/mnt") then 2 else 1);
  home = codes "/h";
  xdg_data_home = [];
  uid = 7;
}

mount_point_of-IsTop_example :
    (top : Text) × (mount_point_of two_volumes 8 (codes "/mnt/a/x") ≡ some (done top))
    × ((top ≡ clean (codes "/mnt/a/x")) ⊎ (device_of two_volumes top ≡ some 2))
    × IsTop two_volumes 2 top
unfolding clean device_of
mount_point_of-IsTop_example =
    mount_point_of-IsTop two_volumes 8 2 (codes "mnt/a/x") (omega arith) refl

abbrev one_job : Job
one_job = record { path = codes "/a/x"; target = codes "/b/x" }

abbrev two_jobs : List Job
two_jobs = one_job ∷ record { path = codes "/a/y"; target = codes "/b/y" } ∷ []

-- one worker: both files are sent, and the first is copied before the second is taken
abbrev copied_both : Pool
copied_both = record { unsent = []; channel = []; working = []; ended = two_jobs }

two_jobs-Runs : Runs 1 (start_pool two_jobs) 6 copied_both
unfolding start_pool
two_jobs-Runs =
    next
      (next
        (next
          (next
            (next (next here (send _ _ refl (omega arith) refl)) (send _ _ refl (omega arith) refl))
            (receive _ _ refl (omega arith) refl))
          (finish _ [] [] refl refl))
        (receive _ _ refl (omega arith) refl))
      (finish _ [] [] refl refl)

Runs-IsComplete_example :
    IsKept 1 two_jobs copied_both
    × (6 ≤ 3 * length two_jobs)
    × (((q : Pool) × Step 1 copied_both q)
        ⊎ ((6 ≡ 3 * length two_jobs) × Permᴰ copied_both.ended two_jobs))
Runs-IsComplete_example = Runs-IsComplete 1 two_jobs 6 copied_both (omega arith) two_jobs-Runs

-- the second file cannot be copied
abbrev copy_first : Job → Run FileMetadata
copy_first j =
    if list_eq j.path (codes "/a/x")
    then done (record { size = 0; mod_time = 0; md5 = []; chunk_size = 1; chunk_md5 = [] })
    else failed

Runs-collect_results_example :
    ((collect_results copy_first copied_both.ended).0 ≡ (collect_results copy_first two_jobs).0)
    × Permᴰ (collect_results copy_first copied_both.ended).1 (collect_results copy_first two_jobs).1
Runs-collect_results_example =
    Runs-collect_results copy_first 1 two_jobs copied_both (omega arith) two_jobs-Runs

-- a duration is the length of its text
abbrev one_digit : Durations ℕ
one_digit = record {
  parse = λ s. some (length s);
  zero_length = 0;
  is_positive = λ n. not (n == 0);
  is_zero = λ n. n == 0;
}

abbrev sound : Stream
sound = record {
  codec_type = codes "audio";
  codec_name = codes "aac";
  width = 0;
  height = 0;
  duration = codes "7";
  avg_frame_rate = codes "0/0";
  tags = [];
}

abbrev probed : FfprobeOutput
probed = record {
  streams = sound ∷ record sound { codec_type = codes "video"; width = 4; height = 3 } ∷ [];
  duration = [];
  format_name = codes "mp4";
  tags = (codes "creation_time", codes "2024") ∷ [];
}

parse_ffprobe-HasSizeOf_example :
    (m : MediaMetadata ℕ) × (parse_ffprobe one_digit (some probed)
      ≡ (if is_empty one_digit m then none else some m))
    × HasSizeOf (first_sized probed.streams) (blank one_digit (codes "mp4")) m
    × (m.capture_time ≡ (
        if list_eq (first_time probed.streams) []
        then first_tag probed.tags capture_keys
        else first_time probed.streams))
parse_ffprobe-HasSizeOf_example = parse_ffprobe-HasSizeOf one_digit probed
