-- ===== src/Prelude/Tests.antt =====
-- Boolean tests on the native numbers, the conditional, and equality of map keys.
use Prim.Native.Nat.{ℕ, ◌≤◌, ◌<◌, compare, Ordering}
use mathlib.Core.Path.{◌≡◌, refl}
use mathlib.Core.Logic.{◌↔◌, ◌⊎◌, inl, inr}
use mathlib.Core.Bool.{Bool, true, false, ◌&&◌}
use mathlib.Core.Option.{Option, none, some}
use mathlib.Core.List.{List, [], ◌∷◌}
use native.Mathlib.Omega.{arith}

abbrev pub ltb : ℕ → ℕ → Bool
ltb a b = elim (compare a b) [ Ordering.lt ↦ true | _ ↦ false ]

abbrev pub leb : ℕ → ℕ → Bool
leb a b = elim (compare a b) [ Ordering.gt ↦ false | _ ↦ true ]

infix 50 ◌==◌
abbrev pub ◌==◌ : ℕ → ℕ → Bool
a == b = elim (compare a b) [ Ordering.eq ↦ true | _ ↦ false ]

infix 1 if◌then◌else◌
abbrev pub if◌then◌else◌ {ℓ} : {A : Type ℓ} → Bool → A → A → A
if true then x else y = x
if false then x else y = y

pub ltb→lt : (a b : ℕ) → ltb a b ≡ true → a < b
ltb→lt a b h = ground arith

pub lt→ltb : (a b : ℕ) → a < b → ltb a b ≡ true
lt→ltb a b h = ground arith

pub not-ltb→le : (a b : ℕ) → ltb a b ≡ false → b ≤ a
not-ltb→le a b h = ground arith

pub ==_iff : (a b : ℕ) → (a == b ≡ true) ↔ (a ≡ b)
==_iff a b = (λ h. ground arith, λ h. ground arith)

-- To split on a computed value and keep the equation.
pub Bool-cases : (b : Bool) → (b ≡ true) ⊎ (b ≡ false)
Bool-cases true = inl refl
Bool-cases false = inr refl

pub Option-cases {ℓ} : {A : Type ℓ} (o : Option A) → (o ≡ none) ⊎ ((a : A) × (o ≡ some a))
Option-cases none = inl refl
Option-cases (some a) = inr (a, refl)

-- A conditional whose test is known, and what a branch of it is equal to.
pub if_true : {A : Type 0} (b : Bool) (x y : A) → b ≡ true → (if b then x else y) ≡ x
if_true b x y e = rw e refl

pub if_false : {A : Type 0} (b : Bool) (x y : A) → b ≡ false → (if b then x else y) ≡ y
if_false b x y e = rw e refl

pub then_branch :
    {A : Type 0} (b : Bool) {x : A} (y : A) {z : A} → b ≡ true → (if b then x else y) ≡ z → x ≡ z
then_branch true y e h = h
then_branch false y e h = absurd (ground arith)

pub else_branch :
    {A : Type 0} (b : Bool) (x : A) {y z : A} → b ≡ false → (if b then x else y) ≡ z → y ≡ z
else_branch false x e h = h
else_branch true x e h = absurd (ground arith)

pub some_inj : {A : Type 0} {a b : A} → some a ≡ some b → a ≡ b
some_inj h = ground arith

infixl 5 ◌>>=◌
abbrev pub ◌>>=◌ {ℓ κ} : {A : Type ℓ} {B : Type κ} → Option A → (A → Option B) → Option B
none >>= f = none
some a >>= f = f a

-- Keys that are compared by `==` in the source.
pub record Eq {ℓ} (A : Type ℓ) : Type ℓ where
  pub beq : A → A → Bool
  pub beq_iff : (a b : A) → (beq a b ≡ true) ↔ (a ≡ b)

abbrev pub list_eq : List ℕ → List ℕ → Bool
list_eq [] [] = true
list_eq (x ∷ xs) (y ∷ ys) = x == y && list_eq xs ys
list_eq [] (y ∷ ys) = false
list_eq (x ∷ xs) [] = false

list_eq→≡ : (a b : List ℕ) → list_eq a b ≡ true → a ≡ b
list_eq→≡ [] [] h = refl
list_eq→≡ (x ∷ xs) (y ∷ ys) h = ground (arith, list_eq→≡ xs ys)
list_eq→≡ [] (y ∷ ys) h = ground arith
list_eq→≡ (x ∷ xs) [] h = ground arith

pub list_eq_self : (a : List ℕ) → list_eq a a ≡ true
list_eq_self [] = refl
list_eq_self (x ∷ xs) = ground (arith, list_eq_self xs)

≡→list_eq : (a b : List ℕ) → a ≡ b → list_eq a b ≡ true
≡→list_eq a b e = ground (arith, list_eq_self a)

pub list_eq_iff : (a b : List ℕ) → (list_eq a b ≡ true) ↔ (a ≡ b)
list_eq_iff a b = (list_eq→≡ a b, ≡→list_eq a b)

instance abbrev pub nat_eq : Eq ℕ
nat_eq = record { beq = ◌==◌; beq_iff = ==_iff }

instance abbrev pub text_eq : Eq (List ℕ)
text_eq = record { beq = list_eq; beq_iff = list_eq_iff }

module _ {ℓ} {A B : Type ℓ} ⦃e : Eq A⦄ ⦃d : Eq B⦄ where
  abbrev pub both_eq : A × B → A × B → Bool
  both_eq (a, b) (a', b') = e.beq a a' && d.beq b b'

  pub both_eq_iff : (p q : A × B) → (both_eq p q ≡ true) ↔ (p ≡ q)
  both_eq_iff (a, b) (a', b') = (
    λ h. ground (arith, e.beq_iff a a', d.beq_iff b b'),
    λ h. ground (arith, e.beq_iff a a', d.beq_iff b b'),
  )

instance abbrev pub pair_eq {ℓ} : {A B : Type ℓ} ⦃e : Eq A⦄ ⦃d : Eq B⦄ → Eq (A × B)
pair_eq = record { beq = both_eq; beq_iff = both_eq_iff }
