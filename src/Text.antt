-- ===== src/Text.antt =====
-- Go strings as lists of bytes, with what the program uses of the packages strings and
-- path/filepath, and `IsSubdir` of util.go.
pub mod Laws
pub mod Paths
pub mod Decimals
use Prim.Native.Char.{code}
use Prim.Native.String.{String}
use dup_detector.Prelude.{
  ℕ, zero, suc, ◌+◌, ◌-◌, Bool, true, false, ◌&&◌, ◌||◌, Option, none, some, List, [], ◌∷◌, ◌++◌,
  ltb, leb, ◌==◌, if◌then◌else◌, length, get_elem?, list_eq, take, drop,
}

abbrev pub Text : Type 0
Text = List ℕ

-- The code points of a literal: its bytes, as every literal here is ASCII.
abbrev pub codes : String → Text
codes String.[] = []
codes (String.◌∷◌ c s) = code c ∷ codes s

abbrev pub slash : ℕ
slash = 47

-- a < b on strings
unfoldable pub text_lt : Text → Text → Bool
text_lt [] [] = false
text_lt [] (y ∷ ys) = true
text_lt (x ∷ xs) [] = false
text_lt (x ∷ xs) (y ∷ ys) =
    let rest = text_lt xs ys in if ltb x y then true else if x == y then rest else false

-- strings.HasPrefix(s, prefix)
unfoldable pub has_prefix : Text → Text → Bool
has_prefix s [] = true
has_prefix [] (y ∷ ys) = false
has_prefix (x ∷ xs) (y ∷ ys) = x == y && has_prefix xs ys

-- strings.TrimPrefix(s, prefix)
unfoldable pub trim_prefix : Text → Text → Text
unfolding has_prefix
trim_prefix s prefix = if has_prefix s prefix then drop (length prefix) s else s

-- strings.HasSuffix(s, suffix)
unfoldable pub has_suffix : Text → Text → Bool
has_suffix s suffix =
    leb (length suffix) (length s) && list_eq (drop (length s - length suffix) s) suffix

-- strings.TrimSuffix(s, suffix)
unfoldable pub trim_suffix : Text → Text → Text
unfolding has_suffix
trim_suffix s suffix = if has_suffix s suffix then take (length s - length suffix) s else s

-- strings.Index(s, sub)
unfoldable pub index : Text → Text → Option ℕ
unfolding has_prefix
index [] sub = if list_eq sub [] then some 0 else none
index (x ∷ xs) sub =
    let rest = index xs sub in
    if has_prefix (x ∷ xs) sub then some 0 else elim rest [ none ↦ none | some i ↦ some (suc i) ]

-- strings.Contains(s, sub)
unfoldable pub contains : Text → Text → Bool
unfolding index
contains s sub = elim (index s sub) [ none ↦ false | some i ↦ true ]

-- strings.LastIndexByte(s, c); `none` is -1
unfoldable pub last_index_byte : Text → ℕ → Option ℕ
last_index_byte [] c = none
last_index_byte (x ∷ xs) c = elim (last_index_byte xs c) [
  | some i ↦ some (suc i)
  | none ↦ if x == c then some 0 else none
]

push_front : ℕ → List Text → List Text
push_front x [] = (x ∷ []) ∷ []
push_front x (p ∷ ps) = (x ∷ p) ∷ ps

-- strings.Split(s, sep) for a separator of one byte
unfoldable pub split : Text → ℕ → List Text
unfolding push_front
split [] c = [] ∷ []
split (x ∷ xs) c = let rest = split xs c in if x == c then [] ∷ rest else push_front x rest

-- strings.Join(parts, sep) for a separator of one byte
unfoldable pub join : List Text → ℕ → Text
join [] c = []
join (p ∷ []) c = p
join (p ∷ q ∷ ps) c = p ++ c ∷ join (q ∷ ps) c

-- unicode.IsSpace, on the ASCII range
is_space : ℕ → Bool
is_space c = (leb 9 c && leb c 13) || c == 32

trim_left : Text → Text
unfolding is_space
trim_left [] = []
trim_left (c ∷ s) = let rest = trim_left s in if is_space c then rest else c ∷ s

-- white space at the end, once the rest is known
trim_right : Text → Text
unfolding is_space
trim_right [] = []
trim_right (c ∷ s) = elim (trim_right s) [
  | [] ↦ if is_space c then [] else c ∷ []
  | d ∷ r ↦ c ∷ d ∷ r
]

-- strings.TrimSpace(s)
unfoldable pub trim_space : Text → Text
unfolding trim_left trim_right
trim_space s = trim_right (trim_left s)

unfoldable pub lower_byte : ℕ → ℕ
lower_byte c = if leb b'A' c && leb c b'Z' then c + 32 else c

-- strings.ToLower(s) on ASCII text
unfoldable pub to_lower : Text → Text
unfolding lower_byte
to_lower [] = []
to_lower (c ∷ s) = lower_byte c ∷ to_lower s

-- IsSubdir: the prefix test, then the byte `child[len(parent)]`
unfoldable pub is_subdir : Text → Text → Bool
unfolding has_prefix
is_subdir parent child =
    if leb (length child) (length parent)
    then false
    else has_prefix child parent
      && elim (get_elem? child (length parent)) [ none ↦ false | some c ↦ c == slash ]
