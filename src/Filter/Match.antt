-- ===== src/Filter/Match.antt =====
-- filepath.Match on a system whose separator is `/`: whether a name matches a pattern. A malformed
-- pattern gives an error, which the program reads as no match: `none` and `false` stand for both.
use dup_detector.Prelude.{
  ℕ, zero, suc, Bool, true, false, not, ◌&&◌, ◌||◌, Option, none, some, [], ◌∷◌, if◌then◌else◌, leb,
  ◌==◌, length, drop, any, list_eq, ◌>>=◌,
}
use dup_detector.Text.{Text, slash}
use dup_detector.Glob.{decode_rune, rune_error}

-- a piece of a pattern: whether stars come first, the text up to the next star, and the rest
pub record Piece : Type 0 where
  pub star : Bool
  pub chunk : Text
  pub rest : Text

abbrev take_byte : ℕ → Text × Text → Text × Text
take_byte c (chunk, rest) = (c ∷ chunk, rest)

-- the text up to a star outside brackets; a byte after a backslash is passed over
unfoldable pub split_chunk : Bool → Text → Text × Text
split_chunk in_range [] = ([], [])
split_chunk in_range (c ∷ []) = if c == b'*' && not in_range then ([], c ∷ []) else (c ∷ [], [])
split_chunk in_range (c ∷ d ∷ s) =
    let escaped = split_chunk in_range s in
    let next =
      split_chunk (if c == b'[' then true else if c == b']' then false else in_range) (d ∷ s) in
    if c == b'\\'
    then take_byte c (take_byte d escaped)
    else if c == b'*' && not in_range
    then ([], c ∷ d ∷ s)
    else take_byte c next

unfoldable pub skip_stars : Text → Text
skip_stars [] = []
skip_stars (c ∷ s) = let rest = skip_stars s in if c == b'*' then rest else c ∷ s

-- scanChunk
unfoldable pub scan_chunk : Text → Piece
unfolding split_chunk skip_stars
scan_chunk pattern =
    let after = skip_stars pattern in
    let (chunk, rest) = split_chunk false after in
    record { star = not (length after == length pattern); chunk = chunk; rest = rest }

-- the rune at the front of a text, and the text after it
unfoldable pub first_rune : Text → Option (ℕ × Text)
unfolding decode_rune
first_rune [] = none
first_rune (c ∷ s) = let (r, more) = decode_rune c s in some (r, drop more s)

unfoldable pub esc_rune : Text → Option (ℕ × Text)
unfolding first_rune
esc_rune [] = none
esc_rune (c ∷ s) =
    let (r, more) = decode_rune c s in
    let rest = drop more s in
    if (r == rune_error && more == 0) || list_eq rest [] then none else some (r, rest)

-- getEsc
unfoldable pub get_esc : Text → Option (ℕ × Text)
unfolding esc_rune
get_esc [] = none
get_esc (c ∷ s) =
    if c == b'-' || c == b']' then none else if c == b'\\' then esc_rune s else esc_rune (c ∷ s)

-- the upper end of a range, if there is one
unfoldable pub range_end : ℕ → Text → Option (ℕ × Text)
unfolding get_esc
range_end lo [] = some (lo, [])
range_end lo (c ∷ s) = if c == b'-' then get_esc s else some (lo, c ∷ s)

-- the ranges of a class, on fuel for its length: whether the rune is in one, and what follows
unfoldable pub match_ranges : ℕ → ℕ → Bool → Bool → Text → Option (Bool × Text)
unfolding get_esc range_end
match_ranges zero r first found chunk = none
match_ranges (suc fuel) r first found [] = none
match_ranges (suc fuel) r first found (c ∷ s) =
    let more = get_esc (c ∷ s) >>= λ lo. range_end lo.0 lo.1 >>= λ hi.
    match_ranges fuel r false (found || (leb lo.0 r && leb r hi.0)) hi.1 in
    if c == b']' && not first then some (found, s) else more

unfoldable pub match_class : ℕ → Text → Option (Bool × Text)
unfolding match_ranges
match_class r [] = none
match_class r (c ∷ s) =
    if c == b'^'
    then (match_ranges (length s) r true false s >>= λ m. some (not m.0, m.1))
    else match_ranges (length (c ∷ s)) r true false (c ∷ s)

-- matchChunk, on fuel for the length of the chunk: what is left of the name
unfoldable pub match_chunk : ℕ → Text → Text → Option Text
unfolding match_class first_rune
match_chunk fuel [] s = some s
match_chunk zero (c ∷ chunk) s = none
match_chunk (suc fuel) (c ∷ chunk) [] = none
match_chunk (suc fuel) (c ∷ chunk) (x ∷ s) =
    let class = first_rune (x ∷ s) >>= λ r.
    match_class r.0 chunk >>= λ m. if m.0 then match_chunk fuel m.1 r.1 else none in
    let question = first_rune (x ∷ s) >>= λ r. match_chunk fuel chunk r.1 in
    let byte = λ (d : ℕ).
      λ (more : Text). let rest = match_chunk fuel more s in if d == x then rest else none in
    if c == b'['
    then class
    else if c == b'?'
    then (if x == slash then none else question)
    else if c == b'\\'
    then elim chunk [ [] ↦ none | d ∷ more ↦ byte d more ]
    else byte c chunk

unfoldable pub chunk_at : Text → Text → Option Text
unfolding match_chunk
chunk_at chunk name = match_chunk (length chunk) chunk name

-- the loop that lets a star skip bytes: what is left of the name at the first place that serves
unfoldable pub skip_to : Text → Bool → Text → Option Text
unfolding chunk_at
skip_to chunk last [] = none
skip_to chunk last (x ∷ name) =
    let later = skip_to chunk last name in
    if x == slash then none else elim (chunk_at chunk name) [
      | none ↦ later
      | some t ↦ if last && not (list_eq t []) then later else some t
    ]

-- filepath.Match, on fuel for the length of the pattern: first after a star that skips bytes, then
-- at the front of the name
unfoldable pub match_on : Option Text → (Text → Bool) → Bool
match_on none more = false
match_on (some t) more = more t

unfoldable pub match_pieces : ℕ → Text → Text → Bool
unfolding scan_chunk chunk_at skip_to match_on
match_pieces fuel [] name = list_eq name []
match_pieces zero (c ∷ pattern) name = false
match_pieces (suc fuel) (c ∷ pattern) name =
    let p = scan_chunk (c ∷ pattern) in
    let more = match_pieces fuel p.rest in
    let skipped = match_on (skip_to p.chunk (list_eq p.rest []) name) more in
    if p.star && list_eq p.chunk []
    then not (any (λ x. x == slash) name)
    else elim (chunk_at p.chunk name) [
      | none ↦ p.star && skipped
      | some t ↦ if list_eq t [] || not (list_eq p.rest []) then more t else p.star && skipped
    ]

unfoldable pub match_path : Text → Text → Bool
unfolding match_pieces
match_path pattern name = match_pieces (length pattern) pattern name
