-- ===== src/Text/Paths/Lengths.antt =====
-- filepath.Dir gets a rooted path other than `/` shorter.
use dup_detector.Prelude.{
  ℕ, suc, ◌+◌, ◌-◌, ◌≤◌, ◌<◌, ◌≡◌, refl, ap, ◌∙◌, ◌⊎◌, inl, inr, Bool, true, false, not, ◌&&◌, none,
  some, List, [], ◌∷◌, arith, ◌==◌, length, length-append, length-take, list_eq, take, Bool-cases,
  Option-cases,
}
use dup_detector.Text.{Text, codes, slash, split, push_front, join, last_index_byte, has_prefix}
use dup_detector.Text.Paths.{clean_part, clean_parts, reversed, clean, dir}

-- a part with the slash before it
abbrev span : Text → ℕ
span [] = 0
span (c ∷ p) = length p + 2

-- all parts, each with a slash, but not the empty ones
abbrev spans : List Text → ℕ
spans [] = 0
spans (p ∷ parts) = span p + spans parts

-- the same with the first part counted if it is empty too
abbrev first_spans : List Text → ℕ
first_spans [] = 1
first_spans (p ∷ parts) = length p + 1 + spans parts

spans-first : (parts : List Text) → spans parts ≤ first_spans parts
spans-first [] = omega arith
spans-first ([] ∷ parts) = omega arith
spans-first ((c ∷ p) ∷ parts) = omega arith

first_spans-push_front :
    (x : ℕ) (parts : List Text) → first_spans (push_front x parts) ≡ suc (first_spans parts)
unfolding push_front
first_spans-push_front x [] = omega arith
first_spans-push_front x (p ∷ parts) = omega arith

first_spans-split : (s : Text) → (first_spans (split s slash) ≤ suc (length s))
unfolding split
first_spans-split [] = omega arith
first_spans-split (x ∷ s) = elim (Bool-cases (x == slash)) [
  | inl e ↦
      let rest = first_spans-split s in
      let less = spans-first (split s slash) in rw e (omega (arith, rest, less))
  | inr e ↦
      let rest = first_spans-split s in
      let one = first_spans-push_front x (split s slash) in rw e (omega (arith, rest, one))
]

single :
    (x : ℕ) (s : Text)
    → length s ≡ 0
    → (x == slash) ≡ true
    → first_spans (split (x ∷ s) slash) ≤ suc (length s)
unfolding split
single x [] h e = rw e (omega arith)
single x (y ∷ s) h e = absurd (omega (arith, h))

first_spans_ends :
    (s : Text) (i : ℕ)
    → last_index_byte s slash ≡ some i
    → suc i ≡ length s
    → first_spans (split s slash) ≤ length s
unfolding split last_index_byte
first_spans_ends [] i h e = absurd (ground arith)
first_spans_ends (x ∷ s) i h e = elim (Option-cases (last_index_byte s slash)) [
  | inl n ↦
      let found : (x == slash) ≡ true = ground (arith, h, n) in
      let first : i ≡ 0 = ground (arith, h, n) in single x s (omega (arith, e, first)) found
  | inr (j, n) ↦
      let after : i ≡ suc j = ground (arith, h, n) in
      let rest = first_spans_ends s j n (omega (arith, e, after)) in
      let less = spans-first (split s slash) in
      let one = first_spans-push_front x (split s slash) in
      elim (Bool-cases (x == slash)) [
        | inl b ↦ rw b (omega (arith, rest, less))
        | inr b ↦ rw b (omega (arith, rest, one))
      ]
]

clean_part-spans :
    (rooted : Bool) (p : Text) (before : List Text)
    → spans (clean_part rooted p before) ≤ spans before + span p
unfolding clean_part
clean_part-spans rooted [] [] = ground arith
clean_part-spans rooted [] (q ∷ before) = ground arith
clean_part-spans rooted (c ∷ p) [] = ground arith
clean_part-spans rooted (c ∷ p) (q ∷ before) = ground arith

clean_parts-spans :
    (rooted : Bool) (parts before : List Text)
    → spans (clean_parts rooted parts before) ≤ spans before + spans parts
unfolding clean_parts
clean_parts-spans rooted [] before = omega arith
clean_parts-spans rooted (p ∷ parts) before = omega (
  arith,
  clean_part-spans rooted p before,
  clean_parts-spans rooted parts (clean_part rooted p before),
)

-- no part is empty
abbrev AllFull : List Text → Type 0
AllFull [] = Unit
AllFull (p ∷ parts) = ((length p == 0) ≡ false) × AllFull parts

clean_part-AllFull :
    (rooted : Bool) (p : Text) (before : List Text)
    → AllFull before
    → AllFull (clean_part rooted p before)
unfolding clean_part
clean_part-AllFull rooted [] [] h = tt
clean_part-AllFull rooted [] (q ∷ before) h = h
clean_part-AllFull rooted (c ∷ p) [] h = elim (Bool-cases (list_eq (c ∷ p) (codes "."))) [
  | inl e ↦ rw e tt
  | inr e ↦ elim (Bool-cases (rooted && list_eq (c ∷ p) (codes ".."))) [
    | inl d ↦ rw (e, d) tt
    | inr d ↦ rw (e, d) (ground arith, tt)
  ]
]
clean_part-AllFull rooted (c ∷ p) (q ∷ before) h = elim (Bool-cases (list_eq (c ∷ p) (codes "."))) [
  | inl e ↦ rw e h
  | inr e ↦ elim (Bool-cases (list_eq (c ∷ p) (codes "..") && not (list_eq q (codes "..")))) [
    | inl d ↦ rw (e, d) h.1
    | inr d ↦ rw (e, d) (ground arith, h)
  ]
]

clean_parts-AllFull :
    (rooted : Bool) (parts before : List Text)
    → AllFull before
    → AllFull (clean_parts rooted parts before)
unfolding clean_parts
clean_parts-AllFull rooted [] before h = h
clean_parts-AllFull rooted (p ∷ parts) before h =
    clean_parts-AllFull rooted parts (clean_part rooted p before)
      (clean_part-AllFull rooted p before h)

reversed-spans :
    (parts before : List Text)
    → AllFull parts
    → AllFull before
    → AllFull (reversed parts before) × (spans (reversed parts before) ≡ spans parts + spans before)
unfolding reversed
reversed-spans [] before f g = (g, omega arith)
reversed-spans (p ∷ parts) before f g =
    let (full, same) = reversed-spans parts (p ∷ before) f.1 (f.0, g) in (full, omega (arith, same))

span_full : (p : Text) → (length p == 0) ≡ false → span p ≡ suc (length p)
span_full [] h = absurd (ground arith)
span_full (c ∷ p) h = omega arith

length-join : (parts : List Text) → AllFull parts → length (join parts slash) ≤ spans parts - 1
unfolding join
length-join [] f = omega arith
length-join ((c ∷ p) ∷ []) f = omega arith
length-join ([] ∷ parts) f = absurd (ground (arith, f.0))
length-join ((c ∷ p) ∷ q ∷ parts) f =
    let (some_q, rest) = f.1 in
    let q_span = span_full q some_q in
    let shorter = length-join (q ∷ parts) f.1 in
    let joined = length-append p (slash ∷ join (q ∷ parts) slash) in
    omega (arith, q_span, shorter, joined)

-- the length of a rooted path that is made clean
rooted-length :
    (s : Text) (n : ℕ)
    → spans (split s slash) ≤ n
    → (length (clean (slash ∷ s)) ≤ 1) ⊎ (length (clean (slash ∷ s)) ≤ n)
unfolding clean split has_prefix
rooted-length s n h =
    let rooted = has_prefix (slash ∷ s) (slash ∷ []) in
    let parts = clean_parts rooted (split s slash) [] in
    let a = clean_parts-spans rooted (split s slash) [] in
    let (full, same) =
      reversed-spans parts [] (clean_parts-AllFull rooted (split s slash) [] tt) tt in
    let b = length-join (reversed parts []) full in ground (arith, h, a, b, same)

-- a rooted path stays rooted
pub clean-rooted : (s : Text) → (out : Text) × (clean (slash ∷ s) ≡ slash ∷ out)
unfolding clean split has_prefix
clean-rooted s = (_, refl)

length_cut : (s : Text) (n : ℕ) → n ≤ length s → length (take n s) ≡ n
length_cut s n h = omega (arith, length-take n s, h)

take_all : (s : Text) → take (length s) s ≡ s
take_all [] = refl
take_all (c ∷ s) = ap (◌∷◌ c) (take_all s)

last_index_byte-lt : (s : Text) (i : ℕ) → last_index_byte s slash ≡ some i → i < length s
unfolding last_index_byte
last_index_byte-lt [] i h = absurd (ground arith)
last_index_byte-lt (x ∷ s) i h = elim (Option-cases (last_index_byte s slash)) [
  | inl n ↦ ground (arith, h, n)
  | inr (j, n) ↦
      let after : i ≡ suc j = ground (arith, h, n) in
      let below = last_index_byte-lt s j n in omega (arith, after, below)
]

clean_root : clean (slash ∷ []) ≡ slash ∷ []
unfolding clean
clean_root = refl

last_root : (s : Text) → last_index_byte s slash ≡ none → last_index_byte (slash ∷ s) slash ≡ some 0
unfolding last_index_byte
last_root s n = rw n refl

last_below :
    (s : Text) (j : ℕ)
    → last_index_byte s slash ≡ some j
    → last_index_byte (slash ∷ s) slash ≡ some (suc j)
unfolding last_index_byte
last_below s j n = rw n refl

dir-up_to : (p : Text) (i : ℕ) → last_index_byte p slash ≡ some i → dir p ≡ clean (take (i + 1) p)
unfolding dir
dir-up_to p i h = rw (dir, h) refl

one_more : (j : ℕ) → suc j + 1 ≡ suc (suc j)
one_more j = omega arith

-- a path that is cut before its end, or ends in a slash, gets shorter when it is made clean
cut_shorter :
    (s : Text) (j : ℕ)
    → last_index_byte s slash ≡ some j
    → length (clean (slash ∷ take (suc j) s)) < suc (length s)
cut_shorter s j n = elim (Bool-cases (suc j == length s)) [
  | inl e ↦
      let whole : suc j ≡ length s = ground (arith, e) in
      let same : take (suc j) s ≡ s = ap (λ k. take k s) whole ∙ take_all s in
      let a = first_spans_ends s j n whole in
      let b = spans-first (split s slash) in
      let some_byte = last_index_byte-lt s j n in
      elim (rooted-length s (length s) (omega (arith, a, b))) [
        | inl one ↦ rw same (omega (arith, one, some_byte))
        | inr less ↦ rw same (omega (arith, less))
      ]
  | inr e ↦
      let t = take (suc j) s in
      let below = last_index_byte-lt s j n in
      let cut : length t ≡ suc j = length_cut s (suc j) below in
      let inside : suc (suc j) ≤ length s = ground (arith, e, below) in
      let a = first_spans-split t in
      let b = spans-first (split t slash) in
      elim (rooted-length t (suc (length t)) (omega (arith, a, b))) [
        | inl one ↦ omega (arith, one, below)
        | inr less ↦ omega (arith, less, cut, inside)
      ]
]

-- Dir of a rooted path that is not the root is a rooted path, and shorter.
pub dir-shorter :
    (c : ℕ) (s : Text)
    → ((out : Text) × (dir (slash ∷ c ∷ s) ≡ slash ∷ out))
      × (length (dir (slash ∷ c ∷ s)) < length (slash ∷ c ∷ s))
dir-shorter c s = elim (Option-cases (last_index_byte (c ∷ s) slash)) [
  | inl n ↦
      let e = dir-up_to (slash ∷ c ∷ s) 0 (last_root (c ∷ s) n) ∙ clean_root in
      (([], e), rw e (omega arith))
  | inr (j, n) ↦
      let e =
        dir-up_to (slash ∷ c ∷ s) (suc j) (last_below (c ∷ s) j n)
        ∙ ap (λ k. clean (take k (slash ∷ c ∷ s))) (one_more j) in
      let (out, rooted) = clean-rooted (take (suc j) (c ∷ s)) in
      ((out, e ∙ rooted), rw e (cut_shorter (c ∷ s) j n))
]
