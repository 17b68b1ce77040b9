-- ===== src/Text/Laws.antt =====
-- Laws of the text operations: a prefix is a front part, and a split is one at each separator.
use dup_detector.Prelude.{
  ap, ◌∙◌, Bool, Option, none, some, length, length-append, leb, get_elem?, ℕ, ◌≡◌, refl, ◌↔◌, true,
  false, List, [], ◌∷◌, ◌++◌, arith, ◌==◌, inl, inr, Bool-cases, any,
}
use dup_detector.Text.{Text, slash, is_subdir, has_prefix, split, push_front}

has_prefix→append : (s p : Text) → has_prefix s p ≡ true → (r : Text) × (s ≡ p ++ r)
unfolding has_prefix
has_prefix→append s [] h = (s, refl)
has_prefix→append [] (y ∷ ys) h = absurd (ground arith)
has_prefix→append (x ∷ xs) (y ∷ ys) h =
    let (r, e) = has_prefix→append xs ys (ground arith) in (r, ground arith)

pub has_prefix-append : (p r : Text) → has_prefix (p ++ r) p ≡ true
unfolding has_prefix
has_prefix-append [] r = refl
has_prefix-append (x ∷ p) r = ground (arith, has_prefix-append p r)

pub has_prefix_iff : (s p : Text) → (has_prefix s p ≡ true) ↔ ((r : Text) × (s ≡ p ++ r))
has_prefix_iff s p = (has_prefix→append s p, λ (r, e). rw e (has_prefix-append p r))

-- A split has a first part.
pub split-cons : (c : ℕ) (s : Text) → (p : Text) × (parts : List Text) × (split s c ≡ p ∷ parts)
unfolding split push_front
split-cons c [] = ([], [], refl)
split-cons c (x ∷ s) =
    let (p, parts, e) = split-cons c s in
    elim (Bool-cases (x == c)) [
      | inl f ↦ ([], p ∷ parts, rw (f, e) refl)
      | inr f ↦ (x ∷ p, parts, rw (f, e) refl)
    ]

-- The first part ends at the first separator.
pub split-line :
    (c : ℕ) (p s : Text) → any (λ x. x == c) p ≡ false → split (p ++ c ∷ s) c ≡ p ∷ split s c
unfolding split push_front
split-line c [] s h = let same : (c == c) ≡ true = ground arith in rw same refl
split-line c (x ∷ p) s h =
    let first : (x == c) ≡ false = ground (arith, h) in
    let rest = split-line c p s (ground (arith, h)) in rw (first, rest) refl

elem-append : (a r : Text) → get_elem? (a ++ r) (length a) ≡ get_elem? r 0
elem-append [] r = refl
elem-append (x ∷ a) r = elem-append a r

-- What is below a directory, and nothing else, has its path, a slash and more.
pub is_subdir-append : (a r : Text) → is_subdir a (a ++ slash ∷ r) ≡ true
unfolding is_subdir
is_subdir-append a r =
    let longer : leb (length (a ++ slash ∷ r)) (length a) ≡ false =
      ground (arith, length-append a (slash ∷ r)) in
    rw (is_subdir, longer, has_prefix-append a (slash ∷ r), elem-append a (slash ∷ r)) refl

abbrev is_slash : Option ℕ → Bool
is_slash none = false
is_slash (some c) = c == slash

slash_first : (r : Text) → is_slash (get_elem? r 0) ≡ true → (t : Text) × (r ≡ slash ∷ t)
slash_first [] h = absurd (ground arith)
slash_first (c ∷ t) h = (t, ground (arith, h))

pub is_subdir-inv : (a p : Text) → is_subdir a p ≡ true → (r : Text) × (p ≡ a ++ slash ∷ r)
unfolding is_subdir
is_subdir-inv a p h =
    let prefixed : has_prefix p a ≡ true = ground (arith, h) in
    let (r, e) = (has_prefix_iff p a).0 prefixed in
    let at : get_elem? p (length a) ≡ get_elem? r 0 =
      ap (λ q. get_elem? q (length a)) e ∙ elem-append a r in
    let last : is_slash (get_elem? p (length a)) ≡ true = ground (arith, h) in
    let (t, q) = slash_first r (rw at at last) in (t, e ∙ ap (◌++◌ a) q)
