-- ===== src/Cleanup/Cadence.antt =====
-- Backup cadences in paths (cleanup.go): the expression
-- (?i)^(.*?)\b(daily|weekly|monthly|quarterly)\b[^/]*(/.*)?$ and the reorderings by its matches.
pub mod Laws
use dup_detector.Prelude.{
  ℕ, zero, suc, Bool, true, false, not, ◌&&◌, ◌||◌, ◌==◌, leb, ltb, Option, none, some, List, [],
  ◌∷◌, map, if◌then◌else◌, ◌>>=◌, list_eq, any, sort, larger_first,
}
use dup_detector.Text.{Text, slash, lower_byte, codes}
use dup_detector.Glob.{newline}
use dup_detector.Files.{ScannedFile, TreeDupPair, OverlapItem, DirOverlapBlock}

-- a word character of \b
is_word : ℕ → Bool
is_word c =
    (leb b'a' c && leb c b'z')
    || (leb b'A' c && leb c b'Z')
    || (leb b'0' c && leb c b'9')
    || c == b'_'

-- The Kelvin sign, three bytes, folds to `k`.
kelvin : Text → Option Text
kelvin (a ∷ b ∷ c ∷ s) = if a == 0xE2 && b == 0x84 && c == 0xAA then some s else none
kelvin _ = none

-- one letter without regard to case, and what follows it
letter : ℕ → Text → Option Text
unfolding kelvin lower_byte
letter l [] = none
letter l (c ∷ s) = if lower_byte c == l then some s else if l == b'k' then kelvin (c ∷ s) else none

letters : Text → Text → Option Text
unfolding letter
letters [] s = some s
letters (l ∷ ls) s = letter l s >>= λ rest. letters ls rest

-- the alternatives, each with its cadenceRank
cadence_word : Text → Option (ℕ × Text)
unfolding letters
cadence_word s = elim (letters (codes "daily") s) [
  | some r ↦ some (0, r)
  | none ↦ elim (letters (codes "weekly") s) [
    | some r ↦ some (1, r)
    | none ↦ elim (letters (codes "monthly") s) [
      | some r ↦ some (2, r)
      | none ↦ elim (letters (codes "quarterly") s) [ some r ↦ some (3, r) | none ↦ none ]
    ]
  ]
]

starts_word : Text → Bool
unfolding is_word
starts_word [] = false
starts_word (c ∷ s) = is_word c

-- [^/]*(/.*)?$ and its group
tail_group : Text → Option Text
tail_group [] = some []
tail_group (c ∷ s) =
    let rest = tail_group s in
    if c == slash then (if any (λ x. x == newline) s then none else some (c ∷ s)) else rest

-- the expression from its second group on, at a place after a character that is a word's or not
match_here : Bool → Text → Option (ℕ × Text)
unfolding cadence_word starts_word tail_group
match_here after_word s =
    if after_word
    then none
    else cadence_word s >>= λ (rank, rest).
        if starts_word rest then none else tail_group rest >>= λ suffix. some (rank, suffix)

-- FindStringSubmatch from one place on: the shortest prefix is tried first
find_from : Bool → Text → Option (Text × ℕ × Text)
unfolding match_here is_word
find_from after_word [] = none
find_from after_word (c ∷ s) =
    let later = find_from (is_word c) s in
    elim (match_here after_word (c ∷ s)) [
      | some (rank, suffix) ↦ some ([], rank, suffix)
      | none ↦
          if c == newline
          then none
          else elim later [ none ↦ none | some (p, rank, suffix) ↦ some (c ∷ p, rank, suffix) ]
    ]

-- the prefix, the rank of the cadence word, and the trailing path
unfoldable pub find_cadence : Text → Option (Text × ℕ × Text)
unfolding find_from
find_cadence path = find_from false path

-- Whether `a` is of a more frequent cadence than `b`, all else equal.
unfoldable pub more_frequent : Text → Text → Bool
more_frequent a b = elim (find_cadence a) [
  | none ↦ false
  | some (pa, ra, sa) ↦ elim (find_cadence b) [
    | none ↦ false
    | some (pb, rb, sb) ↦ list_eq pa pb && list_eq sa sb && ltb ra rb
  ]
]

-- one round of reorientPairsByBackupCadence
unfoldable pub reorient_pair : TreeDupPair → TreeDupPair
unfolding more_frequent
reorient_pair p =
    if more_frequent p.dir_a p.dir_b then record p { dir_a = p.dir_b; dir_b = p.dir_a } else p

unfoldable pub swap_item : OverlapItem → OverlapItem
swap_item it = record it { a_files = it.b_files; b_files = it.a_files }

-- reorientBlockByBackupCadence
unfoldable pub reorient_block : DirOverlapBlock → DirOverlapBlock
unfolding more_frequent swap_item
reorient_block b =
    if more_frequent b.root_a b.root_b
    then record b { root_a = b.root_b; root_b = b.root_a; items = map swap_item b.items }
    else b

-- the files with their ranks, if each has a cadence between the same prefix and suffix
ranked : Text → Text → List ScannedFile → Option (List (ℕ × ScannedFile))
ranked prefix suffix [] = some []
ranked prefix suffix (f ∷ files) =
    let rest = ranked prefix suffix files in
    elim (find_cadence f.path) [
      | none ↦ none
      | some (p, rank, s) ↦
          if list_eq p prefix && list_eq s suffix
          then (rest >>= λ rs. some ((rank, f) ∷ rs))
          else none
    ]

-- the first file gives the prefix and the suffix
ranked_group : List ScannedFile → Option (List (ℕ × ScannedFile))
unfolding ranked
ranked_group [] = none
ranked_group (f ∷ files) =
    find_cadence f.path >>= λ (prefix, _, suffix). ranked prefix suffix (f ∷ files)

-- least frequent cadence first, or no change
reordered : List ScannedFile → Option (List (ℕ × ScannedFile)) → List ScannedFile
unfolding sort
reordered files none = files
reordered files (some rs) = map (λ r. r.1) (sort (larger_first (λ r. r.0)) rs)

-- reorientFilesByBackupCadence
unfoldable pub reorient_files : List ScannedFile → List ScannedFile
unfolding ranked_group reordered
reorient_files [] = []
reorient_files (f ∷ []) = f ∷ []
reorient_files (f ∷ g ∷ files) = reordered (f ∷ g ∷ files) (ranked_group (f ∷ g ∷ files))
