-- ===== src/Sizes/Units.antt =====
-- The unit that FormatSize picks.
use dup_detector.Prelude.{
  ℕ, ◌+◌, ◌/◌, ◌^◌, ◌≤◌, ◌<◌, ◌≡◌, refl, arith, ltb, leb, some, false, get_elem?, get_elem?-lt, [],
  ◌∷◌, ◌++◌,
}
use dup_detector.Text.{codes}
use dup_detector.Files.{mul64}
use dup_detector.Sizes.{Floats, scale_loop, format_size}

-- the divisor fits a size, and the size is from 1 to below 1024 of it
abbrev pub IsUnitOf : ℕ → ℕ × ℕ → Type 0
IsUnitOf bytes (div, exp) =
    (exp < 6) × (div ≡ 1024 ^ (exp + 1)) × (div ≤ bytes) × (bytes / div < 1024)

scale_loop-IsUnitOf :
    (bytes : ℕ)
    → 1024 ≤ bytes
    → bytes < 2 ^ 63
    → IsUnitOf bytes (scale_loop 6 (bytes / 1024) 1024 0)
unfolding scale_loop mul64
scale_loop-IsUnitOf bytes h top = ground arith

-- A size of at least 1024 bytes that an int64 can hold is shown, without a panic, in one of the six
-- units: the divisor is the unit's power of 1024, is not more than the size, and the size is less than
-- 1024 of it.
pub format_size-IsUnitOf :
    {F : Type 0} (floats : Floats F) (bytes : ℕ)
    → 1024 ≤ bytes
    → bytes < 2 ^ 63
    → (div : ℕ) × (exp : ℕ) × (unit : ℕ) × IsUnitOf bytes (div, exp)
      × (get_elem? (codes "KMGTPE") exp ≡ some unit)
      × (format_size floats bytes ≡ some (floats.one_decimal bytes div ++ b' ' ∷ unit ∷ b'B' ∷ []))
unfolding format_size
format_size-IsUnitOf floats bytes h top =
    let out = scale_loop 6 (bytes / 1024) 1024 0 in
    let fits = scale_loop-IsUnitOf bytes h top in
    let (unit, at) = get_elem?-lt (codes "KMGTPE") out.1 fits.0 in
    let signed : leb (2 ^ 63) bytes ≡ false = ground (arith, top) in
    let large : ltb bytes 1024 ≡ false = ground (arith, h) in
    (out.0, out.1, unit, fits, at, rw (format_size, signed, large, at) refl)
