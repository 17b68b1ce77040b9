-- ===== src/Prelude/Sort.antt =====
-- Go's `sort.SliceStable` and `sort.Slice`. A stable sort has one result, given here by insertion.
-- `sort.Slice` may leave equal elements in any order: it is a stable sort of some rearrangement,
-- which an `Order` chooses, as it chooses the order in which a `range` visits a map.
use Prim.Native.Nat.{ℕ, ◌≤◌}
use mathlib.Core.Path.{refl}
use mathlib.Core.Logic.{inl, inr}
use mathlib.Core.Bool.{Bool}
use mathlib.Core.List.{List, [], ◌∷◌, Memᴰ, Permᴰ}
use native.Mathlib.Omega.{arith}
use dup_detector.Prelude.Tests.{if◌then◌else◌, ltb, Bool-cases}
use dup_detector.Prelude.Lists.{mem_of_perm, perm-refl, perm-sym}

pub record Order : Type 1 where
  pub visit : (A : Type 0) → List A → List A
  pub visit-perm : (A : Type 0) (xs : List A) → Permᴰ (visit A xs) xs

abbrev pub in_order : Order
in_order = record { visit = λ A xs. xs; visit-perm = λ A xs. perm-refl xs }

module _ {ℓ} {A : Type ℓ} where
  abbrev pub insert : (A → A → Bool) → A → List A → List A
  insert before x [] = x ∷ []
  insert before x (y ∷ ys) =
      let rest = insert before x ys in if before y x then y ∷ rest else x ∷ y ∷ ys

  unfoldable pub sort : (A → A → Bool) → List A → List A
  sort before [] = []
  sort before (x ∷ xs) = insert before x (sort before xs)

  insert-perm : (before : A → A → Bool) (x : A) (ys : List A) → Permᴰ (insert before x ys) (x ∷ ys)
  insert-perm before x [] = Permᴰ.cons refl Permᴰ.nil
  insert-perm before x (y ∷ ys) = elim (Bool-cases (before y x)) [
    | inl e ↦ rw e (Permᴰ.trans (Permᴰ.cons refl (insert-perm before x ys)) (Permᴰ.swap refl refl))
    | inr e ↦ rw e (perm-refl (x ∷ y ∷ ys))
  ]

  pub sort-perm : (before : A → A → Bool) (xs : List A) → Permᴰ (sort before xs) xs
  unfolding sort
  sort-perm before [] = Permᴰ.nil
  sort-perm before (x ∷ xs) =
      Permᴰ.trans (insert-perm before x (sort before xs)) (Permᴰ.cons refl (sort-perm before xs))

  pub mem-sort : (before : A → A → Bool) {a : A} (xs : List A) → Memᴰ a (sort before xs) → Memᴰ a xs
  mem-sort before xs m = mem_of_perm (sort-perm before xs) m

  pub mem-sort_of :
      (before : A → A → Bool) {a : A} (xs : List A) → Memᴰ a xs → Memᴰ a (sort before xs)
  mem-sort_of before xs m = mem_of_perm (perm-sym (sort-perm before xs)) m

  -- The keys never grow along the list.
  abbrev pub AtMost : (A → ℕ) → ℕ → List A → Type 0
  AtMost key n [] = Unit
  AtMost key n (x ∷ xs) = (key x ≤ n) × AtMost key n xs

  abbrev pub IsDescending : (A → ℕ) → List A → Type 0
  IsDescending key [] = Unit
  IsDescending key (x ∷ xs) = AtMost key (key x) xs × IsDescending key xs

  abbrev pub AtLeast : (A → ℕ) → ℕ → List A → Type 0
  AtLeast key n [] = Unit
  AtLeast key n (x ∷ xs) = (n ≤ key x) × AtLeast key n xs

  abbrev pub IsAscending : (A → ℕ) → List A → Type 0
  IsAscending key [] = Unit
  IsAscending key (x ∷ xs) = AtLeast key (key x) xs × IsAscending key xs

  abbrev pub larger_first : (A → ℕ) → A → A → Bool
  larger_first key x y = ltb (key y) (key x)

  abbrev pub smaller_first : (A → ℕ) → A → A → Bool
  smaller_first key x y = ltb (key x) (key y)

  module _ (key : A → ℕ) where
    AtMost-le : (m n : ℕ) (xs : List A) → m ≤ n → AtMost key m xs → AtMost key n xs
    AtMost-le m n [] h a = tt
    AtMost-le m n (x ∷ xs) h a = (omega arith, AtMost-le m n xs h a.1)

    AtMost-insert :
        (n : ℕ) (x : A) (ys : List A)
        → key x ≤ n
        → AtMost key n ys
        → AtMost key n (insert (larger_first key) x ys)
    AtMost-insert n x [] h a = (h, tt)
    AtMost-insert n x (y ∷ ys) h a = elim (Bool-cases (ltb (key x) (key y))) [
      | inl e ↦ rw e (a.0, AtMost-insert n x ys h a.1)
      | inr e ↦ rw e (h, a)
    ]

    insert-IsDescending :
        (x : A) (ys : List A)
        → IsDescending key ys
        → IsDescending key (insert (larger_first key) x ys)
    insert-IsDescending x [] d = (tt, tt)
    insert-IsDescending x (y ∷ ys) d = elim (Bool-cases (ltb (key x) (key y))) [
      | inl e ↦ rw e (AtMost-insert (key y) x ys (ground arith) d.0, insert-IsDescending x ys d.1)
      | inr e ↦ rw e ((ground arith, AtMost-le (key y) (key x) ys (ground arith) d.0), d)
    ]

    pub sort-IsDescending : (xs : List A) → IsDescending key (sort (larger_first key) xs)
    unfolding sort
    sort-IsDescending [] = tt
    sort-IsDescending (x ∷ xs) =
        insert-IsDescending x (sort (larger_first key) xs) (sort-IsDescending xs)

    AtLeast-le : (m n : ℕ) (xs : List A) → n ≤ m → AtLeast key m xs → AtLeast key n xs
    AtLeast-le m n [] h a = tt
    AtLeast-le m n (x ∷ xs) h a = (omega arith, AtLeast-le m n xs h a.1)

    AtLeast-insert :
        (n : ℕ) (x : A) (ys : List A)
        → n ≤ key x
        → AtLeast key n ys
        → AtLeast key n (insert (smaller_first key) x ys)
    AtLeast-insert n x [] h a = (h, tt)
    AtLeast-insert n x (y ∷ ys) h a = elim (Bool-cases (ltb (key y) (key x))) [
      | inl e ↦ rw e (a.0, AtLeast-insert n x ys h a.1)
      | inr e ↦ rw e (h, a)
    ]

    insert-IsAscending :
        (x : A) (ys : List A)
        → IsAscending key ys
        → IsAscending key (insert (smaller_first key) x ys)
    insert-IsAscending x [] d = (tt, tt)
    insert-IsAscending x (y ∷ ys) d = elim (Bool-cases (ltb (key y) (key x))) [
      | inl e ↦ rw e (AtLeast-insert (key y) x ys (ground arith) d.0, insert-IsAscending x ys d.1)
      | inr e ↦ rw e ((ground arith, AtLeast-le (key y) (key x) ys (ground arith) d.0), d)
    ]

    pub sort-IsAscending : (xs : List A) → IsAscending key (sort (smaller_first key) xs)
    unfolding sort
    sort-IsAscending [] = tt
    sort-IsAscending (x ∷ xs) =
        insert-IsAscending x (sort (smaller_first key) xs) (sort-IsAscending xs)
