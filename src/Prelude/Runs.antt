-- ===== src/Prelude/Runs.antt =====
-- What a call that can fail comes to: a value, an error that it returns, or a panic.
use mathlib.Core.Path.{◌≡◌, refl}
use mathlib.Core.Logic.{◌⊎◌, inl, inr}
use native.Mathlib.Omega.{arith}

pub data Run {ℓ} (A : Type ℓ) : Type ℓ where
  done : A → Run A
  failed : Run A
  panic : Run A

infixl 5 ◌>>=◌
abbrev pub ◌>>=◌ {ℓ κ} : {A : Type ℓ} {B : Type κ} → Run A → (A → Run B) → Run B
done a >>= f = f a
failed >>= f = failed
panic >>= f = panic

-- Inversion of a bind that returns a value.
pub >>=-eq-done {ℓ κ} :
    {A : Type ℓ} {B : Type κ} (m : Run A) (f : A → Run B) {b : B}
    → (m >>= f) ≡ done b
    → (a : A) × (m ≡ done a) × (f a ≡ done b)
>>=-eq-done (done a) f h = (a, refl, h)
>>=-eq-done failed f h = absurd (ground arith)
>>=-eq-done panic f h = absurd (ground arith)

pub Run-cases {ℓ} :
    {A : Type ℓ} (m : Run A) → ((a : A) × (m ≡ done a)) ⊎ ((m ≡ failed) ⊎ (m ≡ panic))
Run-cases (done a) = inl (a, refl)
Run-cases failed = inr (inl refl)
Run-cases panic = inr (inr refl)

pub >>=-assoc {ℓ κ μ} :
    {A : Type ℓ} {B : Type κ} {C : Type μ} (m : Run A) (f : A → Run B) (g : B → Run C)
    → (m >>= f >>= g) ≡ (m >>= λ a. f a >>= g)
>>=-assoc (done a) f g = refl
>>=-assoc failed f g = refl
>>=-assoc panic f g = refl

pub >>=-ext {ℓ κ} :
    {A : Type ℓ} {B : Type κ} (m : Run A) {f g : A → Run B}
    → ((a : A) → f a ≡ g a)
    → (m >>= f) ≡ (m >>= g)
>>=-ext (done a) e = e a
>>=-ext failed e = refl
>>=-ext panic e = refl

pub done_inj : {A : Type 0} {a b : A} → done a ≡ done b → a ≡ b
done_inj h = ground arith
