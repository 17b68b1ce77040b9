-- ===== src/Media.antt =====
-- media.go: the media fields of a sidecar, out of what ffprobe prints or an image's header. The float64
-- numbers, the two programs' answers and the decoding of JSON are parameters.
pub mod Sized
pub mod Streams
use dup_detector.Prelude.{
  ℕ, Bool, true, false, not, ◌&&◌, ◌||◌, Option, none, some, List, [], ◌∷◌, if◌then◌else◌, ltb,
  ◌==◌, list_eq,
}
use dup_detector.Text.{Text, codes}
use dup_detector.Files.{signed_rank}

-- ParseFloat, without errors that it returns; 0, and the tests for a positive number and for 0
pub record Durations (F : Type 0) : Type 0 where
  pub parse : Text → Option F
  pub zero_length : F
  pub is_positive : F → Bool
  pub is_zero : F → Bool

-- the keys and values of tags
abbrev pub Tags : Type 0
Tags = List (Text × Text)

-- ffprobeOutput
pub record Stream : Type 0 where
  pub codec_type : Text
  pub codec_name : Text
  pub width : ℕ
  pub height : ℕ
  pub duration : Text
  pub avg_frame_rate : Text
  pub tags : Tags

pub record FfprobeOutput : Type 0 where
  pub streams : List Stream
  pub duration : Text
  pub format_name : Text
  pub tags : Tags

-- MediaMetadata
pub record MediaMetadata (F : Type 0) : Type 0 where
  pub width : ℕ
  pub height : ℕ
  pub duration_sec : F
  pub capture_time : Text
  pub codec : Text
  pub frame_rate : Text
  pub format_name : Text

-- the value at a key
unfoldable pub tag_at : Tags → Text → Option Text
tag_at [] k = none
tag_at ((key, value) ∷ tags) k =
    let rest = tag_at tags k in if list_eq key k then some value else rest

-- firstTag
unfoldable pub first_tag : Tags → List Text → Text
unfolding tag_at
first_tag tags [] = []
first_tag tags (k ∷ keys) =
    let rest = first_tag tags keys in
    elim (tag_at tags k) [ none ↦ rest | some v ↦ if not (list_eq v []) then v else rest ]

abbrev pub capture_keys : List Text
capture_keys =
    codes "creation_time" ∷ codes "DateTimeOriginal" ∷ codes "com.apple.quicktime.creationdate" ∷ []

unfoldable pub is_visual : Stream → Bool
is_visual s = list_eq s.codec_type (codes "video") || list_eq s.codec_type (codes "image")

module _ {F : Type 0} (durations : Durations F) where
  -- empty
  unfoldable pub is_empty : MediaMetadata F → Bool
  is_empty m =
      m.width == 0
      && m.height == 0
      && durations.is_zero m.duration_sec
      && list_eq m.capture_time []
      && list_eq m.codec []
      && list_eq m.frame_rate []
      && list_eq m.format_name []

  -- parseDuration
  unfoldable pub parse_duration : Text → F
  parse_duration s =
      if list_eq s []
      then durations.zero_length
      else elim (durations.parse s) [ none ↦ durations.zero_length | some f ↦ f ]

  -- the dimensions, the codec and the frame rate of a stream, where there are none yet
  unfoldable pub with_size : Stream → MediaMetadata F → MediaMetadata F
  unfolding signed_rank
  with_size s m =
      if m.width == 0 && ltb (signed_rank 0) (signed_rank s.width)
      then record m {
        width = s.width;
        height = s.height;
        codec = s.codec_name;
        frame_rate =
            if not (list_eq s.avg_frame_rate []) && not (list_eq s.avg_frame_rate (codes "0/0"))
            then s.avg_frame_rate
            else m.frame_rate;
      }
      else m

  -- the capture time, if there is none yet
  unfoldable pub with_time : Tags → MediaMetadata F → MediaMetadata F
  unfolding first_tag
  with_time tags m =
      if list_eq m.capture_time []
      then record m { capture_time = first_tag tags capture_keys }
      else m

  -- the loop over the streams
  unfoldable pub read_streams : List Stream → MediaMetadata F → MediaMetadata F
  unfolding is_visual with_size with_time
  read_streams [] m = m
  read_streams (s ∷ streams) m =
      read_streams streams (if is_visual s then with_time s.tags (with_size s m) else m)

  -- the first positive duration of a stream
  unfoldable pub stream_duration : List Stream → F
  unfolding parse_duration
  stream_duration [] = durations.zero_length
  stream_duration (s ∷ streams) =
      let rest = stream_duration streams in
      if durations.is_positive (parse_duration s.duration) then parse_duration s.duration else rest

  -- nothing but a format
  abbrev pub blank : Text → MediaMetadata F
  blank format_name = record {
    width = 0;
    height = 0;
    duration_sec = durations.zero_length;
    capture_time = [];
    codec = [];
    frame_rate = [];
    format_name = format_name;
  }

  -- parseFfprobe, of the decoded output
  unfoldable pub parse_ffprobe : Option FfprobeOutput → Option (MediaMetadata F)
  unfolding read_streams stream_duration with_time is_empty parse_duration
  parse_ffprobe none = none
  parse_ffprobe (some out) =
      let seen = read_streams out.streams (blank out.format_name) in
      let own = parse_duration out.duration in
      let timed = record seen {
        duration_sec = if durations.is_positive own then own else stream_duration out.streams;
      } in
      let m = with_time out.tags timed in if is_empty m then none else some m

  -- extractMediaMetadata, by what ffprobe prints and the dimensions in the header
  unfoldable pub extract_media_metadata :
      Option (Option FfprobeOutput) → Option (ℕ × ℕ) → Option (MediaMetadata F)
  unfolding parse_ffprobe is_empty
  extract_media_metadata probe header =
      let probed : Option (MediaMetadata F) = elim probe [
        | none ↦ none
        | some out ↦ parse_ffprobe out
      ] in
      let fallback : Option (MediaMetadata F) = elim header [
        | none ↦ none
        | some (w, h) ↦ some (record (blank []) { width = w; height = h })
      ] in
      elim probed [ none ↦ fallback | some m ↦ if is_empty m then fallback else some m ]
