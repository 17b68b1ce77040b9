-- ===== src/Sizes.antt =====
-- util.go: sizes as the options give them and as messages show them. A size is an int64, given by its
-- 64-bit pattern; the float64 numbers are a parameter.
pub mod Units
use dup_detector.Prelude.{
  ℕ, zero, suc, ◌+◌, ◌-◌, ◌/◌, ◌^◌, Bool, not, ◌&&◌, Option, none, some, List, [], ◌∷◌, ◌++◌,
  if◌then◌else◌, ltb, leb, ◌==◌, length, take, get_elem?,
}
use dup_detector.Prelude.Runs.{Run, done, failed}
use dup_detector.Text.{Text, codes, trim_space, lower_byte}
use dup_detector.Text.Decimals.{decimal}
use dup_detector.Files.{mul64}

-- strconv.ParseFloat, the test for a negative number, int64(f * float64(m)), and %.1f of a quotient
pub record Floats (F : Type 0) : Type 0 where
  pub parse : Text → Option F
  pub is_negative : F → Bool
  pub scaled : F → ℕ → ℕ
  pub one_decimal : ℕ → ℕ → Text

-- the multiplier of a last byte in lower case, and whether it is taken off
unfoldable pub suffix_of : ℕ → ℕ × ℕ
suffix_of c =
    if c == b'k'
    then (2 ^ 10, 1)
    else if c == b'm'
    then (2 ^ 20, 1)
    else if c == b'g'
    then (2 ^ 30, 1)
    else if c == b't'
    then (2 ^ 40, 1)
    else (1, 0)

abbrev units : Text
units = codes "KMGTPE"

-- the loop of FormatSize: div and exp; the test on exp bounds the rounds
unfoldable pub scale_loop : ℕ → ℕ → ℕ → ℕ → ℕ × ℕ
scale_loop zero n div exp = (div, exp)
scale_loop (suc fuel) n div exp =
    let more = scale_loop fuel (n / 1024) (mul64 div 1024) (exp + 1) in
    if leb 1024 n && ltb exp 5 then more else (div, exp)

module _ {F : Type 0} (floats : Floats F) where
  -- ParseSize
  unfoldable pub parse_size : Text → Run ℕ
  unfolding suffix_of trim_space lower_byte
  parse_size text =
      let s = trim_space text in
      elim (get_elem? s (length s - 1)) [
        | none ↦ done 0
        | some c ↦
            let (multiplier, cut) = suffix_of (lower_byte c) in
            elim (floats.parse (trim_space (take (length s - cut) s))) [
              | none ↦ failed
              | some f ↦ if floats.is_negative f then failed else done (floats.scaled f multiplier)
            ]
      ]

  -- FormatSize; `none` is the panic of an index outside the units
  unfoldable pub format_size : ℕ → Option Text
  unfolding scale_loop decimal
  format_size bytes =
      if leb (2 ^ 63) bytes
      then some (codes "?")
      else if ltb bytes 1024
      then some (decimal bytes ++ codes " B")
      else let (div, exp) = scale_loop 6 (bytes / 1024) 1024 0 in
        elim (get_elem? units exp) [
          | none ↦ none
          | some unit ↦ some (floats.one_decimal bytes div ++ b' ' ∷ unit ∷ b'B' ∷ [])
        ]
