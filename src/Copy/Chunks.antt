-- ===== src/Copy/Chunks.antt =====
-- The loops of copy.go over chunks: what is copied, and what the check of all chunks finds.
use dup_detector.Prelude.{
  ℕ, zero, suc, ◌+◌, ◌*◌, ◌<◌, ◌≡◌, refl, sym, ap, ◌∙◌, ◌⊎◌, inl, inr, true, false, not, ◌&&◌, some,
  List, [], ◌∷◌, ◌++◌, arith, if◌then◌else◌, ltb, ◌==◌, length, get_elem?, take, drop, list_eq_iff,
  length-take, length-drop, take-append-drop, Bool-cases, ==_iff,
}
use mathlib.Core.List.{append_assoc, append-nil}
use dup_detector.Prelude.Runs.{done, failed}
use dup_detector.Text.{Text}
use dup_detector.Copy.{Source, Target, copy_chunks, check_chunk, check_each}

-- the MD5 of each chunk of some bytes
unfoldable pub chunk_sums : (Text → Text) → ℕ → ℕ → Text → List Text
chunk_sums md5 zero size content = []
chunk_sums md5 (suc fuel) size content =
    let rest = chunk_sums md5 fuel size (drop size content) in
    if length content == 0 then [] else md5 (take size content) ∷ rest

pair_eq_of :
    {A B : Type 0} {a a' : A} {b b' : B} → a ≡ a' → b ≡ b' → ◌≡◌ {A = A × B} (a, b) (a', b')
pair_eq_of p q = rw (p, q) refl

no_bytes : (content : Text) → length content ≡ 0 → content ≡ []
no_bytes [] h = refl
no_bytes (c ∷ content) h = absurd (omega (arith, h))

chunk_sums_empty :
    (md5 : Text → Text) (fuel size : ℕ) (content : Text)
    → length content ≡ 0
    → chunk_sums md5 fuel size content ≡ []
unfolding chunk_sums
chunk_sums_empty md5 zero size content h = refl
chunk_sums_empty md5 (suc fuel) size content h = rw ((==_iff (length content) 0).1 h) refl

-- the MD5 that the loop adds, before those of the later chunks
sums_step :
    (md5 : Text → Text) (fuel size : ℕ) (content : Text) (sums : List Text)
    → 0 < size
    → (if ltb 0 (length (take size content)) then sums ++ md5 (take size content) ∷ [] else sums)
        ++ chunk_sums md5 fuel size (drop size content)
      ≡ sums ++ chunk_sums md5 (suc fuel) size content
unfolding chunk_sums
sums_step md5 fuel size content sums pos =
    let taken = length-take size content in
    let dropped = length-drop size content in
    elim (Bool-cases (length content == 0)) [
      | inl a ↦
          let none_taken : ltb 0 (length (take size content)) ≡ false = ground (arith, a, taken) in
          let rest =
            chunk_sums_empty md5 fuel size (drop size content) (ground (arith, a, dropped)) in
          rw (a, none_taken, rest) refl
      | inr a ↦
          let some_taken : ltb 0 (length (take size content)) ≡ true =
            ground (arith, a, taken, pos) in
          rw (a, some_taken)
            (append_assoc sums (md5 (take size content) ∷ [])
              (chunk_sums md5 fuel size (drop size content)))
    ]

whole_chunk :
    (size : ℕ) (content : Text)
    → ltb (length (take size content)) size ≡ true
    → (take size content ≡ content) × (drop size content ≡ [])
whole_chunk size content h =
    let taken = length-take size content in
    let dropped = length-drop size content in
    let gone = no_bytes (drop size content) (ground (arith, h, taken, dropped)) in
    (
      sym (append-nil (take size content))
          ∙ ap (λ l. take size content ++ l) (sym gone)
          ∙ take-append-drop size content,
      gone,
    )

module _ (md5 : Text → Text) (source : Source) (target : Target) where
  -- With enough fuel the loop fails, or it has written all of the content and has the MD5 of each chunk.
  pub copy_chunks-all :
      (fuel size i : ℕ) (content written : Text) (sums : List Text)
      → 0 < size
      → length content < fuel
      → (copy_chunks md5 source target fuel size i content written sums ≡ failed)
        ⊎ (copy_chunks md5 source target fuel size i content written sums
            ≡ done (written ++ content, sums ++ chunk_sums md5 fuel size content))
  unfolding copy_chunks chunk_sums
  copy_chunks-all zero size i content written sums pos bound = absurd (omega arith)
  copy_chunks-all (suc fuel) size i content written sums pos bound =
      let chunk = take size content in
      let n = length chunk in
      let sums' = if ltb 0 n then sums ++ md5 chunk ∷ [] else sums in
      elim (Bool-cases (ltb 0 n && not (target.writes i))) [
        | inl a ↦ inl (rw (copy_chunks, a) refl)
        | inr a ↦ elim (Bool-cases (source.breaks i)) [
          | inl b ↦ inl (rw (copy_chunks, a, b) refl)
          | inr b ↦ elim (Bool-cases (ltb n size)) [
            | inl d ↦
                let (all, nothing) = whole_chunk size content d in
                let added = sums_step md5 fuel size content sums pos in
                let last = chunk_sums_empty md5 fuel size (drop size content) (ap length nothing) in
                inr (
                  rw (copy_chunks, a, b, d)
                    (ap done (
                      pair_eq_of (ap (λ l. written ++ l) all)
                        (sym (append-nil _) ∙ ap (λ l. sums' ++ l) (sym last) ∙ added))))
            | inr d ↦
                let taken = length-take size content in
                let dropped = length-drop size content in
                let added = sums_step md5 fuel size content sums pos in
                elim (copy_chunks-all fuel size (suc i) (drop size content) (written ++ chunk)
                  (if ltb 0 n then sums ++ md5 chunk ∷ [] else sums) pos
                  (ground (arith, d, taken, dropped, pos, bound))) [
                    | inl e ↦ inl (rw (copy_chunks, a, b, d) e)
                    | inr e ↦ inr (
                        rw (copy_chunks, a, b, d)
                          (e
                            ∙ ap done (
                                pair_eq_of
                                  (append_assoc written chunk (drop size content)
                                    ∙ ap (λ l. written ++ l) (take-append-drop size content))
                                  added)))
                  ]
          ]
        ]
      ]

  abbrev pub HasSum : ℕ → Text → ℕ → Text → Type 0
  HasSum size stored i sum = md5 (take size (drop (i * size) stored)) ≡ sum

  pub check_here :
      (size : ℕ) (stored : Text) (i : ℕ) {sum : Text}
      → check_chunk md5 source target size stored i sum ≡ true
      → HasSum size stored i sum
  unfolding check_chunk
  check_here size stored i {sum = sum} h =
      (list_eq_iff (md5 (take size (drop (i * size) stored))) sum).0 (ground (arith, h))

  check_at :
      (size i : ℕ) (stored first : Text) (sums : List Text) (k : ℕ) {sum : Text}
      → get_elem? (first ∷ sums) k ≡ some sum
      → HasSum size stored i first
      → ((k : ℕ) (sum : Text) → get_elem? sums k ≡ some sum → HasSum size stored (suc i + k) sum)
      → HasSum size stored (i + k) sum
  check_at size i stored first sums zero {sum = sum} e here later =
      let same : first ≡ sum = ground arith in
      let at : i + 0 ≡ i = omega arith in rw (at, ← same) here
  check_at size i stored first sums (suc k) {sum = sum} e here later =
      let at : i + suc k ≡ suc i + k = omega arith in rw at (later k sum e)

  pub check_each-all :
      (size : ℕ) (stored : Text) (i : ℕ) (sums : List Text)
      → check_each md5 source target size stored i sums ≡ true
      → (k : ℕ) {sum : Text} → get_elem? sums k ≡ some sum
      → md5 (take size (drop ((i + k) * size) stored)) ≡ sum
  unfolding check_each
  check_each-all size stored i [] h k e = absurd (ground arith)
  check_each-all size stored i (first ∷ sums) h k {sum = sum} e =
      elim (Bool-cases (check_chunk md5 source target size stored i first)) [
        | inr a ↦ absurd (let z = rw (check_each, a) at h in ground arith)
        | inl a ↦
            check_at size i stored first sums k e (check_here size stored i a)
              (λ j sum q. check_each-all size stored (suc i) sums (rw (check_each, a) at h) j q)
      ]
