-- ===== src/Cleanup/Indices.antt =====
-- parseIndices (cleanup.go): comma-separated numbers and ranges. A number is 1-based in the input
-- and 0-based in the result.
pub mod Laws
use dup_detector.Prelude.{
  ℕ, zero, suc, ◌+◌, ◌-◌, ◌*◌, ◌^◌, Bool, true, false, not, ◌&&◌, ◌||◌, ◌==◌, leb, ltb, Option,
  none, some, List, [], ◌∷◌, ◌++◌, if◌then◌else◌, ◌>>=◌, has, nat_eq, length, list_eq, take, drop,
}
use dup_detector.Text.{Text, split, trim_space, index}

digits : ℕ → Text → Option ℕ
digits n [] = some n
digits n (c ∷ s) = if leb b'0' c && leb c b'9' then digits (n * 10 + (c - b'0')) s else none

unsigned : Text → Option ℕ
unfolding digits
unsigned [] = none
unsigned (c ∷ s) = digits 0 (c ∷ s)

-- strconv.Atoi, where the caller wants a number of at least 1: `none` is an error or a negative
-- number. An error too is what does not fit an int64.
unfoldable pub atoi : Text → Option ℕ
unfolding unsigned
atoi [] = none
atoi (c ∷ s) = (if c == b'+' then unsigned s else unsigned (c ∷ s)) >>= λ n.
    if ltb n (2 ^ 63) then some n else none

-- the closure `add`; `seen` holds what the result holds
unfoldable pub add_index : ℕ → List ℕ → List ℕ
add_index n result = if has (n - 1) result then result else result ++ (n - 1) ∷ []

-- for n := lo; n <= hi; n++ { add(n) }, with the number of rounds
unfoldable pub add_range : ℕ → ℕ → List ℕ → List ℕ
unfolding add_index
add_range lo zero result = result
add_range lo (suc rounds) result = add_range (suc lo) rounds (add_index lo result)

-- the bounds of a part: `lo-hi`, or one number twice
unfoldable pub part_bounds : Text → Option (ℕ × ℕ)
unfolding atoi index trim_space
part_bounds part =
    let single : Option (ℕ × ℕ) = atoi part >>= λ n. some (n, n) in
    elim (index part (b'-' ∷ [])) [
      | none ↦ single
      | some i ↦
          if i == 0
          then single
          else (atoi (trim_space (take i part)) >>= λ lo.
              atoi (trim_space (drop (i + 1) part)) >>= λ hi. some (lo, hi))
    ]

-- one round of the loop over the parts
unfoldable pub parse_part : ℕ → Text → List ℕ → Option (List ℕ)
unfolding part_bounds add_range
parse_part max part result = part_bounds part >>= λ (lo, hi).
    if ltb lo 1 || ltb max hi || ltb hi lo then none else some (add_range lo (hi + 1 - lo) result)

unfoldable pub parse_parts : ℕ → List Text → List ℕ → Option (List ℕ)
unfolding parse_part trim_space
parse_parts max [] result = some result
parse_parts max (p ∷ ps) result =
    let part = trim_space p in
    if list_eq part [] then none else parse_part max part result >>= parse_parts max ps

-- parseIndices; `none` is ok=false
unfoldable pub parse_indices : Text → ℕ → Option (List ℕ)
unfolding parse_parts split
parse_indices input max = parse_parts max (split input b',') [] >>= λ result.
    if ltb 0 (length result) then some result else none
