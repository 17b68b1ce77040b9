-- ===== src/Media/Sized.antt =====
-- Which stream the loop over the streams (media.go) takes the dimensions and the codec from.
use mathlib.Core.Path.{subst}
use dup_detector.Prelude.{
  if_true, if_false, ◌≡◌, refl, sym, ap, ◌∙◌, Bool, true, false, ◌&&◌, Option, none, some, List, [],
  ◌∷◌, arith, if◌then◌else◌, ltb, ◌==◌, ==_iff, list_eq, inl, inr, Bool-cases,
}
use dup_detector.Text.{Text}
use dup_detector.Files.{signed_rank}
use dup_detector.Media.{
  Durations, Stream, MediaMetadata, is_visual, with_size, with_time, read_streams,
}

-- the first stream that is visual and has a positive width
abbrev pub first_sized : List Stream → Option Stream
first_sized [] = none
first_sized (s ∷ streams) =
    let rest = first_sized streams in
    if is_visual s && ltb (signed_rank 0) (signed_rank s.width) then some s else rest

is_sized : Stream → Bool
is_sized s = is_visual s && ltb (signed_rank 0) (signed_rank s.width)

module _ {F : Type 0} where
  -- the same dimensions and codec
  abbrev pub SameSize : MediaMetadata F → MediaMetadata F → Type 0
  SameSize m r = (r.width ≡ m.width) × (r.height ≡ m.height) × (r.codec ≡ m.codec)

  -- those of a stream, if there is one, and else those that were there
  abbrev pub HasSizeOf : Option Stream → MediaMetadata F → MediaMetadata F → Type 0
  HasSizeOf none m r = SameSize m r
  HasSizeOf (some s) m r = (r.width ≡ s.width) × (r.height ≡ s.height) × (r.codec ≡ s.codec_name)

  module _ (durations : Durations F) where
    -- what one stream does
    abbrev pub step : Stream → MediaMetadata F → MediaMetadata F
    step s m = if is_visual s then with_time durations s.tags (with_size durations s m) else m

    pub with_time-SameSize :
        (tags : List (Text × Text)) (m : MediaMetadata F) → SameSize m (with_time durations tags m)
    unfolding with_time
    with_time-SameSize tags m = elim (Bool-cases (list_eq m.capture_time [])) [
      | inl e ↦ rw (with_time, e) (refl, refl, refl)
      | inr e ↦ rw (with_time, e) (refl, refl, refl)
    ]

    step-SameSize :
        (s : Stream) (m : MediaMetadata F)
        → (m.width == 0) && is_sized s ≡ false
        → SameSize m (step s m)
    unfolding with_size is_sized
    step-SameSize s m h = elim (Bool-cases (is_visual s)) [
      | inr v ↦ rw v (refl, refl, refl)
      | inl v ↦
          let small : (m.width == 0) && ltb (signed_rank 0) (signed_rank s.width) ≡ false =
            ground (arith, h, v) in
          let same : with_size durations s m ≡ m = rw (with_size, small) refl in
          rw (v, same) (with_time-SameSize s.tags m)
    ]

    step-HasSizeOf :
        (s : Stream) (m : MediaMetadata F)
        → (m.width == 0) && is_sized s ≡ true
        → HasSizeOf (some s) m (step s m)
    unfolding with_size is_sized
    step-HasSizeOf s m h =
        let v : is_visual s ≡ true = ground (arith, h) in
        let large : (m.width == 0) && ltb (signed_rank 0) (signed_rank s.width) ≡ true =
          ground (arith, h) in
        rw (v, with_size, large) (with_time-SameSize s.tags _)

    sized-width : (s : Stream) → is_sized s ≡ true → (s.width == 0) ≡ false
    unfolding is_sized
    sized-width s h = elim (Bool-cases (s.width == 0)) [
      | inr e ↦ e
      | inl e ↦
          let zero_width : s.width ≡ 0 = (==_iff s.width 0).0 e in
          absurd (let q = ap signed_rank zero_width in ground (arith, h, q))
    ]

    -- Once there is a width, the dimensions and the codec stay.
    read_streams-SameSize :
        (streams : List Stream) (m : MediaMetadata F)
        → (m.width == 0) ≡ false
        → SameSize m (read_streams durations streams m)
    unfolding read_streams
    read_streams-SameSize [] m h = (refl, refl, refl)
    read_streams-SameSize (s ∷ streams) m h =
        let here = step-SameSize s m (ground (arith, h)) in
        let still : ((step s m).width == 0) ≡ false = ap (λ n. n == 0) here.0 ∙ h in
        let (x, y, z) = read_streams-SameSize streams (step s m) still in
        (x ∙ here.0, y ∙ here.1, z ∙ here.2)

    -- what comes after a stream without a size
    later-HasSizeOf :
        (o : Option Stream) (m r t : MediaMetadata F)
        → SameSize m r
        → HasSizeOf o r t
        → HasSizeOf o m t
    later-HasSizeOf none m r t same h = (h.0 ∙ same.0, h.1 ∙ same.1, h.2 ∙ same.2)
    later-HasSizeOf (some s) m r t same h = h

    -- what comes before a change of other fields
    pub HasSizeOf-SameSize :
        (o : Option Stream) (m r t : MediaMetadata F)
        → HasSizeOf o m r
        → SameSize r t
        → HasSizeOf o m t
    HasSizeOf-SameSize none m r t h same = (same.0 ∙ h.0, same.1 ∙ h.1, same.2 ∙ h.2)
    HasSizeOf-SameSize (some s) m r t h same = (same.0 ∙ h.0, same.1 ∙ h.1, same.2 ∙ h.2)

    pub read_streams-HasSizeOf :
        (streams : List Stream) (m : MediaMetadata F)
        → (m.width == 0) ≡ true
        → HasSizeOf (first_sized streams) m (read_streams durations streams m)
    unfolding read_streams is_sized
    read_streams-HasSizeOf [] m h = (refl, refl, refl)
    read_streams-HasSizeOf (s ∷ streams) m h = elim (Bool-cases (is_sized s)) [
      | inl e ↦
          let (w, t, c) = step-HasSizeOf s m (ground (arith, h, e)) in
          let kept : ((step s m).width == 0) ≡ false = ap (λ n. n == 0) w ∙ sized-width s e in
          let (x, y, z) = read_streams-SameSize streams (step s m) kept in
          subst (λ o. HasSizeOf o m (read_streams durations (s ∷ streams) m))
            (sym (if_true (is_sized s) (some s) (first_sized streams) e)) (x ∙ w, y ∙ t, z ∙ c)
      | inr e ↦
          let here = step-SameSize s m (ground (arith, e)) in
          let still : ((step s m).width == 0) ≡ true = ap (λ n. n == 0) here.0 ∙ h in
          subst (λ o. HasSizeOf o m (read_streams durations (s ∷ streams) m))
            (sym (if_false (is_sized s) (some s) (first_sized streams) e))
            (later-HasSizeOf (first_sized streams) m (step s m) _ here
              (read_streams-HasSizeOf streams (step s m) still))
    ]
