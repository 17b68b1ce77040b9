-- ===== src/Prelude/Flat.antt =====
-- Lists made of a list for each element, and lists cut in chunks.
use Prim.Native.Nat.{ℕ, zero, suc, ◌≤◌}
use mathlib.Core.Path.{◌≡◌, refl, sym, ap, ◌∙◌}
use mathlib.Core.Logic.{inl, inr}
use mathlib.Core.List.{List, [], ◌∷◌, ◌++◌, Memᴰ, append_assoc}
use native.Mathlib.Omega.{arith}
use dup_detector.Prelude.Lists.{
  length, take, drop, mem-append_left, mem-append_right, mem-append_cases,
}

unfoldable pub flat_map : {A B : Type 0} → (A → List B) → List A → List B
flat_map f [] = []
flat_map f (x ∷ xs) = f x ++ flat_map f xs

pub mem-flat_map :
    {A B : Type 0} (f : A → List B) {x : A} {y : B} (xs : List A)
    → Memᴰ x xs
    → Memᴰ y (f x)
    → Memᴰ y (flat_map f xs)
unfolding flat_map
mem-flat_map f [] m h = elim m [ ]
mem-flat_map f (x ∷ xs) (Memᴰ.head e) h = mem-append_left (f x) (flat_map f xs) (rw e at h)
mem-flat_map f (x ∷ xs) (Memᴰ.tail m) h =
    mem-append_right (f x) (flat_map f xs) (mem-flat_map f xs m h)

pub mem-flat_map_inv :
    {A B : Type 0} (f : A → List B) {y : B} (xs : List A)
    → Memᴰ y (flat_map f xs)
    → (x : A) × Memᴰ x xs × Memᴰ y (f x)
unfolding flat_map
mem-flat_map_inv f [] m = elim m [ ]
mem-flat_map_inv f (x ∷ xs) m = elim (mem-append_cases (f x) (flat_map f xs) m) [
  | inl h ↦ (x, Memᴰ.head refl, h)
  | inr t ↦ let (z, n, h) = mem-flat_map_inv f xs t in (z, Memᴰ.tail n, h)
]

pub flat_map-append :
    {A B : Type 0} (f : A → List B) (xs ys : List A)
    → flat_map f (xs ++ ys) ≡ flat_map f xs ++ flat_map f ys
unfolding flat_map
flat_map-append f [] ys = refl
flat_map-append f (x ∷ xs) ys =
    ap (◌++◌ (f x)) (flat_map-append f xs ys)
    ∙ sym (append_assoc (f x) (flat_map f xs) (flat_map f ys))

module _ {ℓ} {A : Type ℓ} where
  -- `for start := 0; start < len(xs); start += size`, on fuel; size 0 does not occur
  unfoldable pub chunks : ℕ → ℕ → List A → List (List A)
  chunks fuel size [] = []
  chunks zero size (x ∷ xs) = []
  chunks (suc fuel) size (x ∷ xs) = take size (x ∷ xs) ∷ chunks fuel size (drop size (x ∷ xs))

  length-take-le : (n : ℕ) (xs : List A) → length (take n xs) ≤ n
  length-take-le zero xs = omega arith
  length-take-le (suc n) [] = omega arith
  length-take-le (suc n) (x ∷ xs) = let h = length-take-le n xs in omega arith

  take-append-drop : (n : ℕ) (xs : List A) → take n xs ++ drop n xs ≡ xs
  take-append-drop zero xs = refl
  take-append-drop (suc n) [] = refl
  take-append-drop (suc n) (x ∷ xs) = rw (take-append-drop n xs) refl

  mem-take : (n : ℕ) {a : A} (xs : List A) → Memᴰ a (take n xs) → Memᴰ a xs
  mem-take n xs m = rw (take-append-drop n xs) at (mem-append_left (take n xs) (drop n xs) m)

  mem-drop : (n : ℕ) {a : A} (xs : List A) → Memᴰ a (drop n xs) → Memᴰ a xs
  mem-drop n xs m = rw (take-append-drop n xs) at (mem-append_right (take n xs) (drop n xs) m)

  -- A chunk has at most `size` elements, all of the list.
  pub chunk-within :
      (fuel size : ℕ) {c : List A} (xs : List A)
      → Memᴰ c (chunks fuel size xs)
      → (length c ≤ size) × ((a : A) → Memᴰ a c → Memᴰ a xs)
  unfolding chunks
  chunk-within fuel size [] m = elim m [ ]
  chunk-within zero size (x ∷ xs) m = elim m [ ]
  chunk-within (suc fuel) size (x ∷ xs) (Memᴰ.head e) =
      rw e (length-take-le size (x ∷ xs), λ a n. mem-take size (x ∷ xs) n)
  chunk-within (suc fuel) size (x ∷ xs) (Memᴰ.tail m) =
      let (le, sub) = chunk-within fuel size (drop size (x ∷ xs)) m in
      (le, λ a n. mem-drop size (x ∷ xs) (sub a n))
