-- ===== src/Copy/Verified.antt =====
-- What copyFileWithMetadata (copy.go) leaves at the destination.
use dup_detector.Prelude.{
  ℕ, ◌+◌, ◌-◌, ◌<◌, ◌≡◌, refl, ap, ◌⊎◌, inl, inr, Bool, true, false, not, ◌&&◌, none, some, List,
  [], ◌∷◌, arith, if◌then◌else◌, leb, ◌==◌, length, get_elem?, Bool-cases,
}
use dup_detector.Prelude.Runs.{Run, done, failed}
use dup_detector.Text.{Text}
use dup_detector.Files.{signed_rank}
use dup_detector.Cache.{FileMetadata}
use dup_detector.Copy.{
  Source, Target, Copied, chunk_bytes, copy_chunks, check_chunk, verify_readback, gone, metadata,
  finish_copy, copy_file_with_metadata,
}
use dup_detector.Copy.Chunks.{chunk_sums, copy_chunks-all, HasSum, check_here, check_each-all}

after_false : (b r : Bool) → (if b then false else r) ≡ true → r ≡ true
after_false true r h = absurd (ground arith)
after_false false r h = h

after_true : (b r : Bool) → b ≡ false → (if b then true else r) ≡ true → r ≡ true
after_true b r e h = rw e at h

after_both : (b r q : Bool) → b ≡ true → (if b then r else q) ≡ true → r ≡ true
after_both b r q e h = rw e at h

after_neither : (b r q : Bool) → b ≡ false → (if b then r else q) ≡ true → q ≡ true
after_neither b r q e h = rw e at h

module _ (md5 : Text → Text) (source : Source) (target : Target) where
  -- The chunk with this number is read back: every chunk, or only the last.
  abbrev pub IsReadBack : Bool → ℕ → ℕ → Type 0
  IsReadBack full count k = (full ≡ true) ⊎ (k + 1 ≡ count)

  -- The destination's chunks that are read back have the MD5 listed for them.
  abbrev pub IsChecked : ℕ → Bool → Text → List Text → Type 0
  IsChecked size full stored sums =
      (k : ℕ) (sum : Text)
      → get_elem? sums k ≡ some sum
      → IsReadBack full (length sums) k
      → HasSum md5 source target size stored k sum

  get_elem?-none : (sums : List Text) (k : ℕ) → length sums ≡ 0 → get_elem? sums k ≡ none
  get_elem?-none [] k h = refl
  get_elem?-none (s ∷ sums) k h = absurd (omega (arith, h))

  tail_check :
      (size : ℕ) (stored : Text) (sums : List Text) (k : ℕ) {sum : Text}
      → (elim (get_elem? sums (length sums - 1)) [
        | none ↦ false
        | some sum ↦ check_chunk md5 source target size stored (length sums - 1) sum
      ])
        ≡ true
      → k ≡ length sums - 1
      → get_elem? sums k ≡ some sum
      → check_chunk md5 source target size stored k sum ≡ true
  tail_check size stored sums k h last e = rw last (rw (rw last at e) at h)

  verify_readback-IsChecked :
      (size : ℕ) (stored : Text) (sums : List Text) (full : Bool)
      → verify_readback md5 source target size stored sums full ≡ true
      → IsChecked size full stored sums
  unfolding verify_readback
  verify_readback-IsChecked size stored sums full h k sum e back =
      let some_sum : (length sums == 0) ≡ false = elim (Bool-cases (length sums == 0)) [
        | inl a ↦ absurd (let z = get_elem?-none sums k (ground (arith, a)) in ground (arith, z, e))
        | inr a ↦ a
      ] in
      let read = after_false (not target.reopens) _ (after_true (length sums == 0) _ some_sum h) in
      elim (Bool-cases full) [
        | inl f ↦
            let all =
              check_each-all md5 source target size stored 0 sums (after_both full _ _ f read) k
                e in
            let at : 0 + k ≡ k = omega arith in rw at at all
        | inr f ↦ elim back [
          | inl t ↦ absurd (ground (arith, f, t))
          | inr t ↦
              let last : k ≡ length sums - 1 = omega (arith, t) in
              check_here md5 source target size stored k
                (tail_check size stored sums k (after_neither full _ _ f read) last e)
        ]
      ]

  chunk_bytes_pos : (size : ℕ) → 0 < chunk_bytes size
  unfolding chunk_bytes signed_rank
  chunk_bytes_pos size = elim (Bool-cases (leb (signed_rank size) (signed_rank 0))) [
    | inl a ↦ rw a (omega arith)
    | inr a ↦ rw a (ground (arith, a))
  ]

  -- The sidecar tells the content of the source, the destination holds what it keeps of that content,
  -- and its chunks that were read back have the MD5 of the source's.
  pub record IsCopied (size : ℕ) (full : Bool) (meta : FileMetadata) (st : Copied) : Type 0 where
    pub of_source :
        meta
        ≡ metadata md5 source target size source.content
            (chunk_sums md5 (length source.content + 1) size source.content)
    pub at_target : st ≡ record { file = some (target.keeps source.content); sidecar = some meta }
    pub checked : IsChecked size full (target.keeps source.content) meta.chunk_md5

  abbrev pub IsOutcome : ℕ → Bool → Copied → Run FileMetadata × Copied → Type 0
  IsOutcome size full st out =
      ((meta : FileMetadata) × (out.0 ≡ done meta) × IsCopied size full meta out.1)
      ⊎ ((out.0 ≡ failed)
          × ((out.1 ≡ st)
              ⊎ ((out.1 ≡ gone md5 source target st)
                  ⊎ (out.1 ≡ record {
                    file = some (target.keeps source.content);
                    sidecar = target.partial_sidecar;
                  }))))

  finished :
      (size : ℕ) (full : Bool) (st : Copied) (closes verified written : Bool)
      → (verified ≡ true
          → IsChecked size full
              (target.keeps source.content)
              (chunk_sums md5 (length source.content + 1) size source.content))
      → IsOutcome size full st (
          if not closes
          then (failed, gone md5 source target st)
          else if not verified
          then (failed, gone md5 source target st)
          else if not written
          then (
            failed,
            record { file = some (target.keeps source.content); sidecar = target.partial_sidecar },
          )
          else (
            done (
                metadata md5 source target size source.content
                  (chunk_sums md5 (length source.content + 1) size source.content)),
            record {
              file = some (target.keeps source.content);
              sidecar = some (
                  metadata md5 source target size source.content
                    (chunk_sums md5 (length source.content + 1) size source.content));
            },
          ))
  unfolding metadata
  finished size full st false verified written checked = inr (refl, inr (inl refl))
  finished size full st true false written checked = inr (refl, inr (inl refl))
  finished size full st true true false checked = inr (refl, inr (inr refl))
  finished size full st true true true checked =
      inl (_, refl, record { of_source = refl; at_target = refl; checked = checked refl })

  finish_copy-IsOutcome :
      (size : ℕ) (full : Bool) (st : Copied)
      → IsOutcome size full st (
          finish_copy md5 source target size full
            (done (source.content, chunk_sums md5 (length source.content + 1) size source.content))
            st)
  unfolding finish_copy
  finish_copy-IsOutcome size full st =
      let sums = chunk_sums md5 (length source.content + 1) size source.content in
      let stored = target.keeps source.content in
      finished size full st target.closes (verify_readback md5 source target size stored sums full)
        target.writes_sidecar (verify_readback-IsChecked size stored sums full)

  abbrev starts : Bool
  starts = source.opens && source.stats && target.makes_dir && target.creates

  abbrev copies : ℕ → Run (Text × List Text)
  copies size =
      copy_chunks md5 source target (length source.content + 1) size 0 source.content [] []

  copy_started :
      (chunk_size : ℕ) (full : Bool) (st : Copied)
      → starts ≡ true
      → copy_file_with_metadata md5 source target chunk_size full st
        ≡ finish_copy md5 source target
            (chunk_bytes chunk_size)
            full
            (copies (chunk_bytes chunk_size))
            st
  unfolding copy_file_with_metadata
  copy_started chunk_size full st a =
      ap
        (λ b.
          if not b
          then (failed, st)
          else finish_copy md5 source target (chunk_bytes chunk_size) full
              (copies (chunk_bytes chunk_size)) st)
        a

  copy_unstarted :
      (chunk_size : ℕ) (full : Bool) (st : Copied)
      → starts ≡ false
      → copy_file_with_metadata md5 source target chunk_size full st ≡ (failed, st)
  unfolding copy_file_with_metadata
  copy_unstarted chunk_size full st a =
      ap
        (λ b.
          if not b
          then (failed, st)
          else finish_copy md5 source target (chunk_bytes chunk_size) full
              (copies (chunk_bytes chunk_size)) st)
        a

  finish_failed :
      (size : ℕ) (full : Bool) (st : Copied)
      → finish_copy md5 source target size full failed st ≡ (failed, gone md5 source target st)
  unfolding finish_copy
  finish_failed size full st = refl

  -- A copy fails, or its sidecar tells the content of the source and the chunks that were read back, all
  -- of them or the last, have the MD5 of the source's. After a failure the destination is as it was, or
  -- was removed as far as it can be, or lacks only a good sidecar.
  pub copy_file_with_metadata-IsOutcome :
      (chunk_size : ℕ) (full : Bool) (st : Copied)
      → IsOutcome
          (chunk_bytes chunk_size)
          full
          st
          (copy_file_with_metadata md5 source target chunk_size full st)
  copy_file_with_metadata-IsOutcome chunk_size full st =
      let size = chunk_bytes chunk_size in
      elim (Bool-cases starts) [
        | inr a ↦ rw (copy_unstarted chunk_size full st a) (inr (refl, inl refl))
        | inl a ↦
            elim (copy_chunks-all md5 source target (length source.content + 1) size 0
              source.content [] [] (chunk_bytes_pos chunk_size) (omega arith)) [
                | inl b ↦
                    rw (copy_started chunk_size full st a, b, finish_failed size full st)
                      (inr (refl, inr (inl refl)))
                | inr b ↦
                    rw (copy_started chunk_size full st a, b) (finish_copy-IsOutcome size full st)
              ]
      ]
