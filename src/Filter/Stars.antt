-- ===== src/Filter/Stars.antt =====
-- matchDoubleStar ends: each call on what follows the stars has a shorter pattern.
use dup_detector.Prelude.{
  ℕ, zero, suc, ◌+◌, ◌≤◌, ◌<◌, ◌≡◌, ap, inl, inr, true, some, List, [], ◌∷◌, arith, length, take,
  drop, length-drop, list_eq, list_eq_iff, Bool-cases, Option-cases,
}
use mathlib.Core.Path.{fun_ext}
use dup_detector.Text.{Text, codes, slash, has_prefix, trim_prefix, trim_suffix, index, split}
use dup_detector.Filter.{any_tail, after_before, double_star, match_double_star}

has_prefix-length : (s p : Text) → has_prefix s p ≡ true → length p ≤ length s
unfolding has_prefix
has_prefix-length s [] h = omega arith
has_prefix-length [] (y ∷ p) h = absurd (ground arith)
has_prefix-length (x ∷ s) (y ∷ p) h = ground (arith, has_prefix-length s p)

index-bound : (s sub : Text) (i : ℕ) → index s sub ≡ some i → i + length sub ≤ length s
unfolding index
index-bound [] sub i h = elim (Bool-cases (list_eq sub [])) [
  | inl e ↦ ground (arith, h, e, list_eq_iff sub [])
  | inr e ↦ absurd (ground (arith, e))
]
index-bound (x ∷ s) sub i h = elim (Bool-cases (has_prefix (x ∷ s) sub)) [
  | inl e ↦ let le = has_prefix-length (x ∷ s) sub e in ground (arith, e, le)
  | inr e ↦ elim (Option-cases (index s sub)) [
    | inl n ↦ absurd (ground (arith, e, n))
    | inr (j, k) ↦ let le = index-bound s sub j k in ground (arith, e, k, le)
  ]
]

trim_prefix-length : (s p : Text) → length (trim_prefix s p) ≤ length s
unfolding trim_prefix
trim_prefix-length s p = ground (arith, length-drop (length p) s)

-- Two amounts of fuel that exceed the pattern's length give the same.
fuel_agrees :
    (m n : ℕ) (pattern name : Text)
    → length pattern < m
    → length pattern < n
    → double_star m pattern name ≡ double_star n pattern name
unfolding double_star
fuel_agrees zero n pattern name h k = absurd (omega arith)
fuel_agrees (suc m) zero pattern name h k = absurd (omega arith)
fuel_agrees (suc m) (suc n) pattern name h k = elim (Option-cases (index pattern (codes "**"))) [
  | inl e ↦ ground (arith, e)
  | inr (i, e) ↦
      let after = trim_prefix (drop (i + 2) pattern) (slash ∷ []) in
      let bound = index-bound pattern (codes "**") i e in
      let short = trim_prefix-length (drop (i + 2) pattern) (slash ∷ []) in
      let cut = length-drop (i + 2) pattern in
      let same : (name' : Text) → double_star m after name' ≡ double_star n after name' = λ name'.
        fuel_agrees m n after name' (omega (arith, bound, short, cut))
          (omega (arith, bound, short, cut)) in
      let tails : (names : List Text)
          → any_tail (double_star m after) names ≡ any_tail (double_star n after) names =
        λ names. ap (λ f. any_tail f names) (fun_ext same) in
      elim (Option-cases
        (after_before (trim_suffix (take i pattern) (slash ∷ [])) (split name slash))) [
          | inl b ↦ ground (arith, e, b)
          | inr (names, b) ↦ let t = tails names in ground (arith, e, b, t)
        ]
]

-- The recursion of matchDoubleStar ends: more fuel than the pattern's length gives the same answer
-- as the fuel that the definition takes, which never runs out.
pub match_double_star-fuel :
    (fuel : ℕ) (pattern name : Text)
    → length pattern < fuel
    → double_star fuel pattern name ≡ match_double_star pattern name
unfolding match_double_star
match_double_star-fuel fuel pattern name h =
    fuel_agrees fuel (length pattern + 1) pattern name h (omega arith)
