-- ===== src/TreeDup/Stored/Rows.antt =====
-- Where an entry of the map bMap of treePairContentEqual (store_tree.go) comes from.
use dup_detector.Prelude.{
  ℕ, ◌≡◌, sym, ap, ◌∙◌, ◌⊎◌, inl, inr, some, List, [], ◌∷◌, Memᴰ, arith, drop, list_eq, list_eq_iff,
  Bool-cases, Option-cases,
}
use dup_detector.Prelude.Runs.{done}
use dup_detector.Text.{Text}
use dup_detector.Files.{ScannedFile}
use dup_detector.TreeDup.{slice_from}
use dup_detector.TreeDup.Verified.{slice_from-drop}
use dup_detector.TreeDup.Stored.{memo_at, relative_rows}

memo_at-first :
    (rel r : Text) (f : ScannedFile) (m : List (Text × ScannedFile)) {g : ScannedFile}
    → memo_at rel ((r, f) ∷ m) ≡ some g
    → ((r ≡ rel) × (f ≡ g)) ⊎ (memo_at rel m ≡ some g)
unfolding memo_at
memo_at-first rel r f m e = elim (Bool-cases (list_eq r rel)) [
  | inl c ↦ inl ((list_eq_iff r rel).0 c, let z = rw c at e in ground arith)
  | inr c ↦ inr (rw c at e)
]

pub relative_rows-from :
    (n : ℕ) (files : List ScannedFile) (m out : List (Text × ScannedFile)) (rel : Text)
    {g : ScannedFile}
    → relative_rows n files m ≡ done out
    → memo_at rel out ≡ some g
    → (memo_at rel m ≡ some g) ⊎ (Memᴰ g files × (rel ≡ drop n g.path))
unfolding relative_rows
relative_rows-from n [] m out rel h e = inl (let z : m ≡ out = ground arith in rw z e)
relative_rows-from n (f ∷ files) m out rel {g = g} h e = elim (Option-cases (slice_from n f.path)) [
  | inl a ↦ absurd (let z = rw a at h in ground arith)
  | inr (r, a) ↦ elim (relative_rows-from n files ((r, f) ∷ m) out rel (rw a at h) e) [
    | inr (j, w) ↦ inr (Memᴰ.tail j, w)
    | inl b ↦ elim (memo_at-first rel r f m b) [
      | inr old ↦ inl old
      | inl (here, same) ↦ inr (
        Memᴰ.head (sym same),
        sym here ∙ slice_from-drop n f.path r a ∙ ap (λ x. drop n x.path) same,
      )
    ]
  ]
]
