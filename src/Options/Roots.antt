-- ===== src/Options/Roots.antt =====
-- The roots of a run (main.go): no path is scanned below two of them.
use dup_detector.Prelude.{
  some_inj, ℕ, zero, suc, ◌+◌, ◌≡◌, ◌≢◌, refl, sym, ◌∙◌, ◌⊎◌, inl, inr, true, false, not, ◌&&◌,
  some, List, [], ◌∷◌, ◌++◌, Memᴰ, arith, ◌==◌, get_elem?, text_eq, Bool-cases,
}
use dup_detector.Text.{Text, slash, is_subdir}
use dup_detector.Text.Laws.{is_subdir-append, is_subdir-inv}
use dup_detector.Options.{root_excludes}

-- of two directories that hold one path, one holds the other
comparable :
    (a b r s : Text)
    → a ++ slash ∷ r ≡ b ++ slash ∷ s
    → (a ≡ b) ⊎ (((t : Text) × (b ≡ a ++ slash ∷ t)) ⊎ ((t : Text) × (a ≡ b ++ slash ∷ t)))
comparable [] [] r s e = inl refl
comparable [] (y ∷ b) r s e = inr (inl (b, ground (arith, e)))
comparable (x ∷ a) [] r s e = inr (inr (a, ground (arith, e)))
comparable (x ∷ a) (y ∷ b) r s e = elim (comparable a b r s (ground (arith, e))) [
  | inl same ↦ inl (ground (arith, e, same))
  | inr (inl (t, q)) ↦ inr (inl (t, ground (arith, e, q)))
  | inr (inr (t, q)) ↦ inr (inr (t, ground (arith, e, q)))
]

root_excludes-mem :
    (i : ℕ) (root : Text) (j k : ℕ) (roots : List Text) {r : Text}
    → get_elem? roots k ≡ some r
    → i ≢ j + k
    → is_subdir root r ≡ true
    → Memᴰ r (root_excludes i root j roots)
unfolding root_excludes
root_excludes-mem i root j k [] at ne sub = absurd (ground arith)
root_excludes-mem i root j zero (q ∷ roots) {r = r} at ne sub =
    let same : q ≡ r = some_inj at in
    let other : (i == j) ≡ false = ground (arith, ne) in
    let inside : is_subdir root q ≡ true = rw same sub in rw (other, inside) (Memᴰ.head (sym same))
root_excludes-mem i root j (suc k) (q ∷ roots) at ne sub =
    let m = root_excludes-mem i root (suc j) k roots at (λ e. ne (ground (arith, e))) sub in
    elim (Bool-cases (not (i == j) && is_subdir root q)) [
      | inl e ↦ rw e (Memᴰ.tail m)
      | inr e ↦ rw e m
    ]

zero_add : (n : ℕ) → 0 + n ≡ n
zero_add n = omega arith

-- one of two roots that hold a path is left out of the scan of the other
pub nested :
    (roots : List Text) (i j : ℕ) (a b path : Text)
    → get_elem? roots i ≡ some a
    → get_elem? roots j ≡ some b
    → i ≢ j
    → a ≢ b
    → is_subdir a path ≡ true
    → is_subdir b path ≡ true
    → Memᴰ b (root_excludes i a 0 roots) ⊎ Memᴰ a (root_excludes j b 0 roots)
nested roots i j a b path at_a at_b ne differ in_a in_b =
    let (r, p) = is_subdir-inv a path in_a in
    let (s, q) = is_subdir-inv b path in_b in
    elim (comparable a b r s (sym p ∙ q)) [
      | inl same ↦ absurd (differ same)
      | inr (inl (t, e)) ↦ inl (
          root_excludes-mem i a 0 j roots at_b (λ f. ne (f ∙ zero_add j))
            (rw e (is_subdir-append a t)))
      | inr (inr (t, e)) ↦ inr (
          root_excludes-mem j b 0 i roots at_a (λ f. ne (sym (f ∙ zero_add i)))
            (rw e (is_subdir-append b t)))
    ]
