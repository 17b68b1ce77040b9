-- ===== src/Media/Streams.antt =====
-- What ffprobe's output is read as (media.go): the capture time, and the record as a whole.
use dup_detector.Prelude.{
  ◌≡◌, refl, ap, ◌∙◌, not, ◌&&◌, none, some, List, [], ◌∷◌, if◌then◌else◌, ltb, ◌==◌, list_eq,
  list_eq_iff, inl, inr, Bool-cases,
}
use dup_detector.Text.{Text}
use dup_detector.Files.{signed_rank}
use dup_detector.Media.Sized.{
  HasSizeOf, first_sized, step, with_time-SameSize, HasSizeOf-SameSize, read_streams-HasSizeOf,
}
use dup_detector.Media.{
  FfprobeOutput, parse_ffprobe, parse_duration, stream_duration, is_empty, blank, Durations, Stream,
  MediaMetadata, first_tag, capture_keys, is_visual, with_size, with_time, read_streams,
}

-- the first capture time in the tags of a visual stream
abbrev pub first_time : List Stream → Text
first_time [] = []
first_time (s ∷ streams) =
    let rest = first_time streams in
    if is_visual s && not (list_eq (first_tag s.tags capture_keys) [])
    then first_tag s.tags capture_keys
    else rest

module _ {F : Type 0} (durations : Durations F) where
  with_size_time :
      (s : Stream) (m : MediaMetadata F) → (with_size durations s m).capture_time ≡ m.capture_time
  unfolding with_size
  with_size_time s m =
      elim (Bool-cases ((m.width == 0) && ltb (signed_rank 0) (signed_rank s.width))) [
        | inl e ↦ rw (with_size, e) refl
        | inr e ↦ rw (with_size, e) refl
      ]

  -- the capture time after one stream
  abbrev time_after : Stream → Text → Text
  time_after s t =
      if list_eq t [] then (if is_visual s then first_tag s.tags capture_keys else t) else t

  step_time :
      (s : Stream) (m : MediaMetadata F)
      → (step durations s m).capture_time ≡ time_after s m.capture_time
  unfolding with_time
  step_time s m = elim (Bool-cases (is_visual s)) [
    | inr v ↦ elim (Bool-cases (list_eq m.capture_time [])) [
      | inl e ↦ rw (v, e) refl
      | inr e ↦ rw (v, e) refl
    ]
    | inl v ↦
        let same = with_size_time s m in
        elim (Bool-cases (list_eq m.capture_time [])) [
          | inl e ↦ let still = ap (λ t. list_eq t []) same ∙ e in rw (v, e, with_time, still) refl
          | inr e ↦ let still = ap (λ t. list_eq t []) same ∙ e in rw (v, e, with_time, still) same
        ]
  ]

  later_time :
      (s : Stream) (streams : List Stream) (t : Text)
      → (if list_eq (time_after s t) [] then first_time streams else time_after s t)
        ≡ (if list_eq t [] then first_time (s ∷ streams) else t)
  later_time s streams t = elim (Bool-cases (list_eq t [])) [
    | inr e ↦ rw (e, e) refl
    | inl e ↦ elim (Bool-cases (is_visual s)) [
      | inr v ↦ rw (e, v, e) refl
      | inl v ↦ elim (Bool-cases (list_eq (first_tag s.tags capture_keys) [])) [
        | inl d ↦ rw (e, v, d) refl
        | inr d ↦ rw (e, v, d) refl
      ]
    ]
  ]

  read_streams_time :
      (streams : List Stream) (m : MediaMetadata F)
      → (read_streams durations streams m).capture_time
        ≡ (if list_eq m.capture_time [] then first_time streams else m.capture_time)
  unfolding read_streams
  read_streams_time [] m = elim (Bool-cases (list_eq m.capture_time [])) [
    | inl e ↦ rw e ((list_eq_iff m.capture_time []).0 e)
    | inr e ↦ rw e refl
  ]
  read_streams_time (s ∷ streams) m =
      read_streams_time streams (step durations s m)
      ∙ (ap (λ t. if list_eq t [] then first_time streams else t) (step_time s m)
          ∙ later_time s streams m.capture_time)

  with_time_time :
      (tags : List (Text × Text)) (m : MediaMetadata F)
      → (with_time durations tags m).capture_time
        ≡ (if list_eq m.capture_time [] then first_tag tags capture_keys else m.capture_time)
  unfolding with_time
  with_time_time tags m = elim (Bool-cases (list_eq m.capture_time [])) [
    | inl e ↦ rw (with_time, e) refl
    | inr e ↦ rw (with_time, e) refl
  ]

  -- What ffprobe prints is read as a record that is kept unless it is empty: its dimensions and codec are
  -- those of the first visual stream with a positive width, and are not set if there is none; its
  -- capture time is the first one in the tags of a visual stream, and else that of the container.
  pub parse_ffprobe-HasSizeOf :
      (out : FfprobeOutput)
      → (m : MediaMetadata F) × (parse_ffprobe durations (some out)
          ≡ (if is_empty durations m then none else some m))
        × HasSizeOf (first_sized out.streams) (blank durations out.format_name) m
        × (m.capture_time ≡ (
            if list_eq (first_time out.streams) []
            then first_tag out.tags capture_keys
            else first_time out.streams))
  unfolding parse_ffprobe with_time
  parse_ffprobe-HasSizeOf out =
      let seen = read_streams durations out.streams (blank durations out.format_name) in
      let own = parse_duration durations out.duration in
      let timed = record seen {
        duration_sec =
            if durations.is_positive own then own else stream_duration durations out.streams;
      } in
      let (x, y, z) = with_time-SameSize durations out.tags timed in
      (
        with_time durations out.tags timed,
        refl,
        HasSizeOf-SameSize durations (first_sized out.streams) _ seen _
            (read_streams-HasSizeOf durations out.streams (blank durations out.format_name) refl)
            (x, y, z),
        with_time_time out.tags timed
            ∙ ap (λ t. if list_eq t [] then first_tag out.tags capture_keys else t)
                (read_streams_time out.streams (blank durations out.format_name)),
      )
