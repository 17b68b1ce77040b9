-- ===== src/Cleanup/Cadence/Laws.antt =====
-- The reorderings keep every copy.
use dup_detector.Prelude.{
  ℕ, ◌≡◌, refl, ap, inl, inr, Option, none, some, List, [], ◌∷◌, map, arith, Permᴰ, perm-refl,
  sort-perm, larger_first, Option-cases,
}
use dup_detector.Text.{Text}
use dup_detector.Files.{ScannedFile}
use dup_detector.Cleanup.Cadence.{find_cadence, ranked, ranked_group, reordered, reorient_files}

pub perm-map {ℓ} :
    {A B : Type ℓ} (f : A → B) {xs ys : List A} → Permᴰ xs ys → Permᴰ (map f xs) (map f ys)
perm-map f Permᴰ.nil = Permᴰ.nil
perm-map f (Permᴰ.cons e p) = Permᴰ.cons (ap f e) (perm-map f p)
perm-map f (Permᴰ.swap e d) = Permᴰ.swap (ap f e) (ap f d)
perm-map f (Permᴰ.trans p q) = Permᴰ.trans (perm-map f p) (perm-map f q)

ranked_files :
    (prefix suffix : Text) (files : List ScannedFile) (rs : List (ℕ × ScannedFile))
    → ranked prefix suffix files ≡ some rs
    → map (λ r. r.1) rs ≡ files
unfolding ranked
ranked_files prefix suffix [] rs h = ground arith
ranked_files prefix suffix (f ∷ files) rs h = elim (Option-cases (ranked prefix suffix files)) [
  | inl e ↦ absurd (ground arith)
  | inr (rest, e) ↦ let ih = ranked_files prefix suffix files rest e in ground arith
]

ranked_group_files :
    (files : List ScannedFile) (rs : List (ℕ × ScannedFile))
    → ranked_group files ≡ some rs
    → map (λ r. r.1) rs ≡ files
unfolding ranked_group
ranked_group_files [] rs h = absurd (ground arith)
ranked_group_files (f ∷ files) rs h = elim (Option-cases (find_cadence f.path)) [
  | inl e ↦ absurd (ground arith)
  | inr (c, e) ↦ ranked_files c.0 c.2 (f ∷ files) rs (rw e at h)
]

reordered_perm :
    (files : List ScannedFile) (o : Option (List (ℕ × ScannedFile)))
    → ranked_group files ≡ o
    → Permᴰ (reordered files o) files
unfolding reordered
reordered_perm files none e = perm-refl files
reordered_perm files (some rs) e =
    rw (ranked_group_files files rs e) at
      (perm-map (λ r. r.1) (sort-perm (larger_first (λ r. r.0)) rs))

-- A group has the same copies after the reordering by cadence.
pub reorient_files-perm : (files : List ScannedFile) → Permᴰ (reorient_files files) files
unfolding reorient_files
reorient_files-perm [] = Permᴰ.nil
reorient_files-perm (f ∷ []) = perm-refl (f ∷ [])
reorient_files-perm (f ∷ g ∷ files) = reordered_perm (f ∷ g ∷ files) _ refl
