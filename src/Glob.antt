-- ===== src/Glob.antt =====
-- glob.go: the globs of --remove-by-glob and the copies that they select. The glob is turned into
-- a regular expression over runes, in which `.` does not match a newline.
pub mod Laws
pub mod Selection
use dup_detector.Prelude.{
  ℕ, zero, suc, ◌+◌, ◌-◌, ◌*◌, Bool, true, false, not, ◌&&◌, ◌||◌, List, [], ◌∷◌, map, ltb, leb,
  ◌==◌, if◌then◌else◌,
}
use dup_detector.Text.{Text}

abbrev pub newline : ℕ
newline = 10

abbrev pub rune_error : ℕ
rune_error = 0xFFFD

continuation : ℕ → Bool
continuation b = leb 0x80 b && leb b 0xBF

-- the bytes that may follow a given first byte, where the first has a range of its own
second_in_range : ℕ → ℕ → Bool
unfolding continuation
second_in_range a b =
    if a == 0xE0
    then leb 0xA0 b && leb b 0xBF
    else if a == 0xED
    then leb 0x80 b && leb b 0x9F
    else if a == 0xF0
    then leb 0x90 b && leb b 0xBF
    else if a == 0xF4
    then leb 0x80 b && leb b 0x8F
    else continuation b

-- The rune at the front of a text, and how many more bytes it takes. What is no UTF-8 is a
-- RuneError of one byte.
unfoldable pub decode_rune : ℕ → Text → ℕ × ℕ
unfolding second_in_range continuation
decode_rune a [] = (if ltb a 0x80 then a else rune_error, 0)
decode_rune a (b ∷ []) =
    if ltb a 0x80
    then (a, 0)
    else if leb 0xC2 a && leb a 0xDF && continuation b
    then ((a - 0xC0) * 64 + (b - 0x80), 1)
    else (rune_error, 0)
decode_rune a (b ∷ c ∷ []) =
    if ltb a 0x80
    then (a, 0)
    else if leb 0xC2 a && leb a 0xDF && continuation b
    then ((a - 0xC0) * 64 + (b - 0x80), 1)
    else if leb 0xE0 a && leb a 0xEF && second_in_range a b && continuation c
    then ((a - 0xE0) * 4096 + (b - 0x80) * 64 + (c - 0x80), 2)
    else (rune_error, 0)
decode_rune a (b ∷ c ∷ d ∷ _) =
    if ltb a 0x80
    then (a, 0)
    else if leb 0xC2 a && leb a 0xDF && continuation b
    then ((a - 0xC0) * 64 + (b - 0x80), 1)
    else if leb 0xE0 a && leb a 0xEF && second_in_range a b && continuation c
    then ((a - 0xE0) * 4096 + (b - 0x80) * 64 + (c - 0x80), 2)
    else if leb 0xF0 a && leb a 0xF4 && second_in_range a b && continuation c && continuation d
    then ((a - 0xF0) * 262144 + (b - 0x80) * 4096 + (c - 0x80) * 64 + (d - 0x80), 3)
    else (rune_error, 0)

-- the runes after `skip` bytes that belong to the rune before
runes_after : ℕ → Text → List ℕ
runes_after skip [] = []
runes_after (suc skip) (a ∷ s) = runes_after skip s
runes_after zero (a ∷ s) = let (r, more) = decode_rune a s in r ∷ runes_after more s

-- `for _, r := range s`
unfoldable pub runes : Text → List ℕ
unfolding runes_after decode_rune
runes s = runes_after zero s

-- what the loop of compileGlob writes for one rune: `.*`, `.` or the quoted rune
pub data Item : Type 0 where
  star any_char : Item
  literal : ℕ → Item

unfoldable pub item_of : ℕ → Item
item_of r = if r == b'*' then star else if r == b'?' then any_char else literal r

-- compileGlob; the cache of compiled globs changes no result
unfoldable pub compile_glob : Text → List Item
unfolding item_of
compile_glob glob = map item_of (runes glob)

-- MatchString of the anchored expression
unfoldable pub match_items : List Item → List ℕ → Bool
match_items [] [] = true
match_items [] (c ∷ s) = false
match_items (literal x ∷ p) [] = false
match_items (literal x ∷ p) (c ∷ s) = c == x && match_items p s
match_items (any_char ∷ p) [] = false
match_items (any_char ∷ p) (c ∷ s) = not (c == newline) && match_items p s
match_items (star ∷ p) [] = match_items p []
match_items (star ∷ p) (c ∷ s) =
    let here = match_items p (c ∷ s) in
    let later = match_items (star ∷ p) s in
    if here then true else if c == newline then false else later

-- matchGlob
unfoldable pub match_glob : Text → Text → Bool
unfolding compile_glob match_items runes
match_glob glob path = match_items (compile_glob glob) (runes path)

-- the loop of selectByGlob from index `i`: matched and unmatched indices
unfoldable pub glob_partition : (Text → Bool) → ℕ → List Text → List ℕ × List ℕ
glob_partition matches i [] = ([], [])
glob_partition matches i (p ∷ ps) =
    let (matched, unmatched) = glob_partition matches (suc i) ps in
    if matches p then (i ∷ matched, unmatched) else (matched, i ∷ unmatched)

-- the `switch` of selectByGlob
unfoldable pub choose_indices : List ℕ → List ℕ → List ℕ
choose_indices [] unmatched = []
choose_indices (i ∷ matched) (u ∷ unmatched) = i ∷ matched
choose_indices (i ∷ matched) [] = matched

-- selectByGlob
unfoldable pub select_by_glob : List Text → Text → List ℕ
unfolding glob_partition choose_indices
select_by_glob paths glob =
    let (matched, unmatched) = glob_partition (match_glob glob) 0 paths in
    choose_indices matched unmatched
