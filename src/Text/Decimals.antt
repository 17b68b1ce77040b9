-- ===== src/Text/Decimals.antt =====
-- Numbers in decimal, as Sprintf and strconv print them.
use dup_detector.Prelude.{
  ℕ, zero, suc, ◌+◌, ◌-◌, ◌*◌, ◌/◌, ◌%◌, ◌^◌, ◌≤◌, ◌<◌, ◌≡◌, refl, ap, ◌∙◌, inl, inr, true, false,
  ◌&&◌, [], ◌∷◌, ◌++◌, if◌then◌else◌, ltb, leb, ◌==◌, arith, Bool-cases,
}
use dup_detector.Text.{Text}

-- the digits of a number in decimal, on fuel for its size
unfoldable pub digits : ℕ → ℕ → Text → Text
digits zero n out = out
digits (suc fuel) n out =
    let rest = digits fuel (n / 10) ((48 + n % 10) ∷ out) in
    if ltb n 10 then (48 + n) ∷ out else rest

-- %d
unfoldable pub decimal : ℕ → Text
unfolding digits
decimal n = digits (n + 1) n []

-- %d of an int64, given by its 64-bit pattern
unfoldable pub signed_decimal : ℕ → Text
unfolding decimal
signed_decimal n = if ltb n (2 ^ 63) then decimal n else b'-' ∷ decimal (2 ^ 64 - n)

-- the number that the digits at the front spell, after `n`, and what follows them
abbrev pub value_upto : Text → ℕ → ℕ × Text
value_upto [] n = (n, [])
value_upto (c ∷ s) n =
    let rest = value_upto s (n * 10 + (c - 48)) in if leb 48 c && leb c 57 then rest else (n, c ∷ s)

-- the same with a sign, as a 64-bit pattern
abbrev pub signed_upto : Text → ℕ × Text
signed_upto [] = (0, [])
signed_upto (c ∷ s) =
    if c == b'-' then (2 ^ 64 - (value_upto s 0).0, (value_upto s 0).1) else value_upto (c ∷ s) 0

zero_times : (n : ℕ) → 0 * 10 + n ≡ n
zero_times n = omega arith

quotient : (n : ℕ) → n / 10 * 10 + n % 10 ≡ n
quotient n = omega arith

digit_step : (d n : ℕ) (s : Text) → d < 10 → value_upto ((48 + d) ∷ s) n ≡ value_upto s (n * 10 + d)
digit_step d n s h =
    let is_digit : leb 48 (48 + d) && leb (48 + d) 57 ≡ true = ground (arith, h) in
    let same : n * 10 + (48 + d - 48) ≡ n * 10 + d = omega arith in
    rw is_digit (ap (value_upto s) same)

value_upto-digits :
    (fuel n : ℕ) (out r : Text)
    → n < fuel
    → value_upto (digits fuel n out ++ r) 0 ≡ value_upto (out ++ r) n
unfolding digits
value_upto-digits zero n out r h = absurd (omega arith)
value_upto-digits (suc fuel) n out r h = elim (Bool-cases (ltb n 10)) [
  | inl e ↦
      let small : n < 10 = ground (arith, e) in
      rw (digits, e) (digit_step n 0 (out ++ r) small ∙ ap (value_upto (out ++ r)) (zero_times n))
  | inr e ↦
      rw (digits, e)
        (value_upto-digits fuel (n / 10) ((48 + n % 10) ∷ out) r (ground (arith, h, e))
          ∙ (digit_step (n % 10) (n / 10) (out ++ r) (omega arith)
              ∙ ap (value_upto (out ++ r)) (quotient n)))
]

digits-first :
    (fuel n : ℕ) (out : Text)
    → n < fuel
    → (c : ℕ) × (s : Text) × (digits fuel n out ≡ c ∷ s) × (48 ≤ c)
unfolding digits
digits-first zero n out h = absurd (omega arith)
digits-first (suc fuel) n out h = elim (Bool-cases (ltb n 10)) [
  | inl e ↦ rw (digits, e) (48 + n, out, refl, omega arith)
  | inr e ↦ rw (digits, e) (digits-first fuel (n / 10) ((48 + n % 10) ∷ out) (ground (arith, h, e)))
]

-- no digit stands at the front
abbrev pub EndsNumber : Text → Type 0
EndsNumber r = (n : ℕ) → value_upto r n ≡ (n, r)

-- A printed int64 is read back, where no digit follows.
pub signed_upto-signed_decimal :
    (n : ℕ) (r : Text) → n < 2 ^ 64 → EndsNumber r → signed_upto (signed_decimal n ++ r) ≡ (n, r)
unfolding signed_decimal decimal
signed_upto-signed_decimal n r h ends = elim (Bool-cases (ltb n (2 ^ 63))) [
  | inl e ↦
      let (c, s, first, digit) = digits-first (n + 1) n [] (omega arith) in
      let read = value_upto-digits (n + 1) n [] r (omega arith) ∙ ends n in
      let split : digits (n + 1) n [] ++ r ≡ c ∷ (s ++ r) = ap (λ t. t ++ r) first in
      let read' = rw split at read in
      let other : (c == b'-') ≡ false = ground (arith, digit) in
      rw (signed_decimal, e, decimal, first, other) read'
  | inr e ↦
      let m = 2 ^ 64 - n in
      let read = value_upto-digits (m + 1) m [] r (omega arith) ∙ ends m in
      let back : 2 ^ 64 - m ≡ n = ground (arith, h, e) in
      rw (signed_decimal, e, decimal, read) (ap (λ k. (k, r)) back)
]
