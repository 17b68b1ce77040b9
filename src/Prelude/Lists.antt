-- ===== src/Prelude/Lists.antt =====
-- Lists measured and indexed by native numbers, under the library's names, and predicates on them.
use Prim.Native.Nat.{ℕ, zero, suc, ◌+◌, ◌-◌, ◌<◌, min}
use mathlib.Core.Path.{◌≡◌, refl, sym, ap, ◌∙◌}
use mathlib.Core.Logic.{◌⊎◌, inl, inr}
use mathlib.Core.Bool.{Bool, true, false, ◌||◌}
use mathlib.Core.List.{List, [], ◌∷◌, ◌++◌, map, Memᴰ, Permᴰ}
use mathlib.Core.Option.{Option, none, some}
use native.Mathlib.Omega.{arith}
use dup_detector.Prelude.Tests.{if◌then◌else◌, Eq, Bool-cases}

module _ {ℓ} {A : Type ℓ} where
  abbrev pub length : List A → ℕ
  length [] = 0
  length (x ∷ xs) = suc (length xs)

  abbrev pub get_elem? : List A → ℕ → Option A
  get_elem? [] i = none
  get_elem? (x ∷ xs) zero = some x
  get_elem? (x ∷ xs) (suc i) = get_elem? xs i

  abbrev pub take : ℕ → List A → List A
  take zero xs = []
  take (suc n) [] = []
  take (suc n) (x ∷ xs) = x ∷ take n xs

  abbrev pub drop : ℕ → List A → List A
  drop zero xs = xs
  drop (suc n) [] = []
  drop (suc n) (x ∷ xs) = drop n xs

  -- The elements that pass a test, in order: a loop that appends under an `if`.
  abbrev pub select : (A → Bool) → List A → List A
  select p [] = []
  select p (x ∷ xs) = let rest = select p xs in if p x then x ∷ rest else rest

  abbrev pub any : (A → Bool) → List A → Bool
  any p [] = false
  any p (x ∷ xs) = p x || any p xs

  pub length-append : (xs ys : List A) → length (xs ++ ys) ≡ length xs + length ys
  length-append [] ys = omega arith
  length-append (x ∷ xs) ys = omega (arith, length-append xs ys)

  pub length-take : (n : ℕ) (xs : List A) → length (take n xs) ≡ min n (length xs)
  length-take zero xs = omega arith
  length-take (suc n) [] = omega arith
  length-take (suc n) (x ∷ xs) = omega (arith, length-take n xs)

  pub length-drop : (n : ℕ) (xs : List A) → length (drop n xs) ≡ length xs - n
  length-drop zero xs = omega arith
  length-drop (suc n) [] = omega arith
  length-drop (suc n) (x ∷ xs) = omega (arith, length-drop n xs)

  pub take-append-drop : (n : ℕ) (xs : List A) → take n xs ++ drop n xs ≡ xs
  take-append-drop zero xs = refl
  take-append-drop (suc n) [] = refl
  take-append-drop (suc n) (x ∷ xs) = ap (◌∷◌ x) (take-append-drop n xs)

  pub get_elem?-lt : (xs : List A) (i : ℕ) → i < length xs → (a : A) × (get_elem? xs i ≡ some a)
  get_elem?-lt [] i h = absurd (omega arith)
  get_elem?-lt (x ∷ xs) zero h = (x, refl)
  get_elem?-lt (x ∷ xs) (suc i) h = get_elem?-lt xs i (omega arith)

  pub get_elem?-mem : (xs : List A) (i : ℕ) {a : A} → get_elem? xs i ≡ some a → Memᴰ a xs
  get_elem?-mem [] i h = absurd (ground arith)
  get_elem?-mem (x ∷ xs) zero h = Memᴰ.head (ground arith)
  get_elem?-mem (x ∷ xs) (suc i) h = Memᴰ.tail (get_elem?-mem xs i h)

  pub mem-append_left : {a : A} (xs ys : List A) → Memᴰ a xs → Memᴰ a (xs ++ ys)
  mem-append_left [] ys m = elim m [ ]
  mem-append_left (x ∷ xs) ys (Memᴰ.head e) = Memᴰ.head e
  mem-append_left (x ∷ xs) ys (Memᴰ.tail m) = Memᴰ.tail (mem-append_left xs ys m)

  pub mem-append_right : {a : A} (xs ys : List A) → Memᴰ a ys → Memᴰ a (xs ++ ys)
  mem-append_right [] ys m = m
  mem-append_right (x ∷ xs) ys m = Memᴰ.tail (mem-append_right xs ys m)

  pub mem-append_cases : {a : A} (xs ys : List A) → Memᴰ a (xs ++ ys) → Memᴰ a xs ⊎ Memᴰ a ys
  mem-append_cases [] ys m = inr m
  mem-append_cases (x ∷ xs) ys (Memᴰ.head e) = inl (Memᴰ.head e)
  mem-append_cases (x ∷ xs) ys (Memᴰ.tail m) = elim (mem-append_cases xs ys m) [
    | inl l ↦ inl (Memᴰ.tail l)
    | inr r ↦ inr r
  ]

  pub mem-cons_cases : {a x : A} {xs : List A} → Memᴰ a (x ∷ xs) → (a ≡ x) ⊎ Memᴰ a xs
  mem-cons_cases (Memᴰ.head e) = inl e
  mem-cons_cases (Memᴰ.tail m) = inr m

  pub mem-select :
      (p : A → Bool) {a : A} (xs : List A) → Memᴰ a (select p xs) → Memᴰ a xs × (p a ≡ true)
  mem-select p [] m = elim m [ ]
  mem-select p (x ∷ xs) m = elim (Bool-cases (p x)) [
    | inl e ↦ elim (mem-cons_cases (rw e at m)) [
      | inl h ↦ (Memᴰ.head h, rw h e)
      | inr t ↦ (Memᴰ.tail (mem-select p xs t).0, (mem-select p xs t).1)
    ]
    | inr e ↦
        let t : Memᴰ _ (select p xs) = rw e at m in
        (Memᴰ.tail (mem-select p xs t).0, (mem-select p xs t).1)
  ]

  pub mem-select_of :
      (p : A → Bool) {a : A} (xs : List A) → Memᴰ a xs → p a ≡ true → Memᴰ a (select p xs)
  mem-select_of p [] m h = elim m [ ]
  mem-select_of p (x ∷ xs) (Memᴰ.head e) h = let px : p x ≡ true = rw (← e) h in rw px (Memᴰ.head e)
  mem-select_of p (x ∷ xs) (Memᴰ.tail m) h = elim (Bool-cases (p x)) [
    | inl e ↦ rw e (Memᴰ.tail (mem-select_of p xs m h))
    | inr e ↦ rw e (mem-select_of p xs m h)
  ]

  pub any-false : (p : A → Bool) {a : A} (xs : List A) → any p xs ≡ false → Memᴰ a xs → p a ≡ false
  any-false p [] h m = elim m [ ]
  any-false p (x ∷ xs) h (Memᴰ.head e) = rw e (ground arith)
  any-false p (x ∷ xs) h (Memᴰ.tail m) = any-false p xs (ground arith) m

  pub any-true : (p : A → Bool) (xs : List A) → any p xs ≡ true → (a : A) × Memᴰ a xs × (p a ≡ true)
  any-true p [] h = absurd (ground arith)
  any-true p (x ∷ xs) h = elim (Bool-cases (p x)) [
    | inl e ↦ (x, Memᴰ.head refl, e)
    | inr e ↦ let (a, m, q) = any-true p xs (ground arith) in (a, Memᴰ.tail m, q)
  ]

  pub any-of : (p : A → Bool) {a : A} (xs : List A) → Memᴰ a xs → p a ≡ true → any p xs ≡ true
  any-of p xs m h = elim (Bool-cases (any p xs)) [
    | inl e ↦ e
    | inr e ↦ let q = any-false p xs e m in absurd (ground arith)
  ]

  pub mem_of_perm : {a : A} {xs ys : List A} → Permᴰ xs ys → Memᴰ a xs → Memᴰ a ys
  mem_of_perm Permᴰ.nil m = m
  mem_of_perm (Permᴰ.cons e p) (Memᴰ.head h) = Memᴰ.head (h ∙ e)
  mem_of_perm (Permᴰ.cons e p) (Memᴰ.tail m) = Memᴰ.tail (mem_of_perm p m)
  mem_of_perm (Permᴰ.swap e d) (Memᴰ.head h) = Memᴰ.tail (Memᴰ.head (h ∙ e))
  mem_of_perm (Permᴰ.swap e d) (Memᴰ.tail (Memᴰ.head h)) = Memᴰ.head (h ∙ d)
  mem_of_perm (Permᴰ.swap e d) (Memᴰ.tail (Memᴰ.tail m)) = Memᴰ.tail (Memᴰ.tail m)
  mem_of_perm (Permᴰ.trans p q) m = mem_of_perm q (mem_of_perm p m)

  pub perm-refl : (xs : List A) → Permᴰ xs xs
  perm-refl [] = Permᴰ.nil
  perm-refl (x ∷ xs) = Permᴰ.cons refl (perm-refl xs)

  pub perm-sym : {xs ys : List A} → Permᴰ xs ys → Permᴰ ys xs
  perm-sym Permᴰ.nil = Permᴰ.nil
  perm-sym (Permᴰ.cons e p) = Permᴰ.cons (sym e) (perm-sym p)
  perm-sym (Permᴰ.swap e d) = Permᴰ.swap (sym d) (sym e)
  perm-sym (Permᴰ.trans p q) = Permᴰ.trans (perm-sym q) (perm-sym p)

  pub length-perm : {xs ys : List A} → Permᴰ xs ys → length xs ≡ length ys
  length-perm Permᴰ.nil = refl
  length-perm (Permᴰ.cons e p) = ap suc (length-perm p)
  length-perm (Permᴰ.swap e d) = refl
  length-perm (Permᴰ.trans p q) = length-perm p ∙ length-perm q

pub nil_of_length : {A : Type 0} (xs : List A) → length xs ≡ 0 → xs ≡ []
nil_of_length [] h = refl
nil_of_length (x ∷ xs) h = absurd (omega arith)

module _ {ℓ} {A B : Type ℓ} where
  pub mem-map : (f : A → B) {a : A} (xs : List A) → Memᴰ a xs → Memᴰ (f a) (map f xs)
  mem-map f [] m = elim m [ ]
  mem-map f (x ∷ xs) (Memᴰ.head e) = Memᴰ.head (ap f e)
  mem-map f (x ∷ xs) (Memᴰ.tail m) = Memᴰ.tail (mem-map f xs m)

  pub mem-map_inv :
      (f : A → B) {b : B} (xs : List A) → Memᴰ b (map f xs) → (a : A) × Memᴰ a xs × (b ≡ f a)
  mem-map_inv f [] m = elim m [ ]
  mem-map_inv f (x ∷ xs) (Memᴰ.head e) = (x, Memᴰ.head refl, e)
  mem-map_inv f (x ∷ xs) (Memᴰ.tail m) = let (a, n, e) = mem-map_inv f xs m in (a, Memᴰ.tail n, e)

  pub length-map : (f : A → B) (xs : List A) → length (map f xs) ≡ length xs
  length-map f [] = refl
  length-map f (x ∷ xs) = ap suc (length-map f xs)

-- A map whose values are all true: the keys that it holds.
module _ {ℓ} {A : Type ℓ} ⦃e : Eq A⦄ where
  abbrev pub has : A → List A → Bool
  has k [] = false
  has k (x ∷ xs) = e.beq k x || has k xs

  pub has-mem : (k : A) (xs : List A) → has k xs ≡ true → Memᴰ k xs
  has-mem k [] h = absurd (ground arith)
  has-mem k (x ∷ xs) h = elim (Bool-cases (e.beq k x)) [
    | inl p ↦ Memᴰ.head ((e.beq_iff k x).0 p)
    | inr p ↦ Memᴰ.tail (has-mem k xs (ground arith))
  ]

  pub mem-has : (k : A) (xs : List A) → Memᴰ k xs → has k xs ≡ true
  mem-has k [] m = elim m [ ]
  mem-has k (x ∷ xs) (Memᴰ.head p) = rw ((e.beq_iff k x).1 p)
  mem-has k (x ∷ xs) (Memᴰ.tail m) = ground (arith, mem-has k xs m)

  -- No key twice.
  abbrev pub Distinct : List A → Type ℓ
  Distinct [] = Unit
  Distinct (x ∷ xs) = (has x xs ≡ false) × Distinct xs

  pub has-perm : (k : A) {xs ys : List A} → Permᴰ xs ys → has k xs ≡ has k ys
  has-perm k Permᴰ.nil = refl
  has-perm k (Permᴰ.cons p q) = ground (arith, has-perm k q)
  has-perm k (Permᴰ.swap p q) = ground arith
  has-perm k (Permᴰ.trans p q) = has-perm k p ∙ has-perm k q

  beq_sym : (a b : A) → e.beq a b ≡ false → e.beq b a ≡ false
  beq_sym a b h = ground (arith, e.beq_iff a b, e.beq_iff b a)

  pub Distinct-perm : {xs ys : List A} → Permᴰ xs ys → Distinct xs → Distinct ys
  Distinct-perm Permᴰ.nil d = tt
  Distinct-perm (Permᴰ.cons {a = a} {b = b} p q) d =
      (rw (← p) (rw (← has-perm a q) d.0), Distinct-perm q d.1)
  Distinct-perm (Permᴰ.swap {a = a} {b = b} {a' = a'} {b' = b'} p q) d =
      (ground (arith, beq_sym a b), (ground arith, d.1.1))
  Distinct-perm (Permᴰ.trans p q) d = Distinct-perm q (Distinct-perm p d)
