-- ===== src/Detect/Receivers.antt =====
-- The content pass (ChecksumDupsStore, store_detect.go) hands the same batches to any two receivers that
-- never stop it.
use dup_detector.Prelude.{
  ℕ, ◌≡◌, refl, inl, inr, Bool, true, not, ◌&&◌, Option, none, some, Option-cases, if◌then◌else◌,
  List, [], ◌∷◌, Bool-cases, Order, map,
}
use dup_detector.Text.{Text}
use dup_detector.Files.{ScannedFile, DupGroup}
use dup_detector.Detect.{
  SizeQueries, checksum_step, checksum_group, hand_over, checksum_loop, checksum_dups_store,
  spans_multiple_sources, files_with_size, not_skipped, collision_size_counts,
}

-- a batch goes on, whatever the state, and adds the same to both
module _ {S T : Type 0} (order : Order) (hash : ScannedFile → Option Text)
    (on_batch : List DupGroup → S → Bool × S) (on_other : List DupGroup → T → Bool × T)
    (Related : S → T → Type 0)
    (goes_on : (batch : List DupGroup) (s : S) (t : T)
      → Related s t
      → ((on_batch batch s).0 ≡ true)
        × ((on_other batch t).0 ≡ true)
        × Related (on_batch batch s).1 (on_other batch t).1) where
  hand_over-Related :
      (batch : List DupGroup) (s : S) (t : T)
      → Related s t
      → ((hand_over order hash on_batch batch s).0 ≡ true)
        × ((hand_over order hash on_other batch t).0 ≡ true)
        × Related
            (hand_over order hash on_batch batch s).1
            (hand_over order hash on_other batch t).1
  unfolding hand_over
  hand_over-Related [] s t r = (refl, refl, r)
  hand_over-Related (g ∷ groups) s t r = goes_on (g ∷ groups) s t r

  -- both without an error or both with one, and the states related
  abbrev pub BothRelated : Bool × S → Bool × T → Type 0
  BothRelated (ok, s) (ok', t) = (ok ≡ ok') × Related s t

  checksum_step-Related :
      (rest : S → Bool × S) (other : T → Bool × T) (two_dir : Bool) (size : ℕ)
      (candidates : List ScannedFile) (s : S) (t : T)
      → ((s : S) (t : T) → Related s t → BothRelated (rest s) (other t))
      → Related s t
      → BothRelated
          (checksum_step order hash on_batch rest two_dir size candidates s)
          (checksum_step order hash on_other other two_dir size candidates t)
  unfolding checksum_step
  checksum_step-Related rest other two_dir size candidates s t later r =
      let groups = checksum_group order hash candidates size two_dir in
      let (a, b, r') = hand_over-Related groups s t r in
      elim (Bool-cases (two_dir && not (spans_multiple_sources candidates))) [
        | inl e ↦ rw (checksum_step, e) (later s t r)
        | inr e ↦ rw (checksum_step, e, a, b) (later _ _ r')
      ]

  checksum_loop-Related :
      (candidates_of : ℕ → Option (List ScannedFile)) (two_dir : Bool) (sizes : List ℕ) (s : S)
      (t : T)
      → Related s t
      → BothRelated
          (checksum_loop order hash on_batch candidates_of two_dir sizes s)
          (checksum_loop order hash on_other candidates_of two_dir sizes t)
  unfolding checksum_loop
  checksum_loop-Related candidates_of two_dir [] s t r = (refl, r)
  checksum_loop-Related candidates_of two_dir (size ∷ sizes) s t r =
      elim (Option-cases (candidates_of size)) [
        | inl e ↦ rw (checksum_loop, e) (refl, r)
        | inr (candidates, e) ↦
            rw (checksum_loop, e)
              (checksum_step-Related (checksum_loop order hash on_batch candidates_of two_dir sizes)
                (checksum_loop order hash on_other candidates_of two_dir sizes) two_dir size
                candidates s t (checksum_loop-Related candidates_of two_dir sizes) r)
      ]

  pub checksum_dups_store-Related :
      (queries : SizeQueries) (rows : List ScannedFile) (two_dir : Bool) (skip : List Text) (s : S)
      (t : T)
      → Related s t
      → BothRelated
          (checksum_dups_store order hash on_batch queries rows two_dir skip s)
          (checksum_dups_store order hash on_other queries rows two_dir skip t)
  unfolding checksum_dups_store not_skipped
  checksum_dups_store-Related queries rows two_dir skip s t r = elim (Bool-cases queries.collides) [
    | inr e ↦ rw e (refl, r)
    | inl e ↦ rw e (
        checksum_loop-Related
          (λ size.
            if queries.with_size size
            then some (not_skipped order hash on_batch skip (files_with_size rows size))
            else none)
          two_dir (map (λ c. c.0) (collision_size_counts rows)) s t r)
  ]
