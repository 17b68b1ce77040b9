-- ===== src/Glob/Laws.antt =====
-- `match_glob` against an inductive account of globs, with no order of search in it.
use mathlib.Core.Path.{subst}
use dup_detector.Prelude.{
  ℕ, ◌≡◌, ◌≢◌, refl, ◌↔◌, true, List, [], ◌∷◌, arith, ◌==◌, ==_iff, Bool-cases, inl, inr, map,
}
use dup_detector.Text.{Text}
use dup_detector.Glob.{
  newline, Item, star, any_char, literal, item_of, match_items, match_glob, compile_glob, runes,
}

-- The runes of a glob match those of a path: `*` stands for any run of runes other than a newline, `?` for
-- one such rune, and any other rune for itself.
pub data GlobMatches : List ℕ → List ℕ → Type 0 where
  done : GlobMatches [] []
  same :
      {r c : ℕ} {p s : List ℕ}
      → r ≢ b'*'
      → r ≢ b'?'
      → c ≡ r
      → GlobMatches p s
      → GlobMatches (r ∷ p) (c ∷ s)
  one :
      {r c : ℕ} {p s : List ℕ}
      → r ≡ b'?'
      → c ≢ newline
      → GlobMatches p s
      → GlobMatches (r ∷ p) (c ∷ s)
  leave : {r : ℕ} {p s : List ℕ} → r ≡ b'*' → GlobMatches p s → GlobMatches (r ∷ p) s
  take :
      {r c : ℕ} {p s : List ℕ}
      → r ≡ b'*'
      → c ≢ newline
      → GlobMatches (r ∷ p) s
      → GlobMatches (r ∷ p) (c ∷ s)

star_sound :
    (r : ℕ) (p : List ℕ)
    → r ≡ b'*'
    → ((s : List ℕ) → match_items (map item_of p) s ≡ true → GlobMatches p s)
    → (s : List ℕ) → match_items (star ∷ map item_of p) s ≡ true
    → GlobMatches (r ∷ p) s
unfolding match_items
star_sound r p e rest [] h = leave e (rest [] h)
star_sound r p e rest (c ∷ s) h = elim (Bool-cases (match_items (map item_of p) (c ∷ s))) [
  | inl d ↦ leave e (rest (c ∷ s) d)
  | inr d ↦ take e (ground (arith, h, d)) (star_sound r p e rest s (ground (arith, h, d)))
]

any_sound :
    (r : ℕ) (p : List ℕ)
    → r ≡ b'?'
    → ((s : List ℕ) → match_items (map item_of p) s ≡ true → GlobMatches p s)
    → (s : List ℕ) → match_items (any_char ∷ map item_of p) s ≡ true
    → GlobMatches (r ∷ p) s
unfolding match_items
any_sound r p e rest [] h = absurd (ground (arith, h))
any_sound r p e rest (c ∷ s) h = one e (ground (arith, h)) (rest s (ground (arith, h)))

literal_sound :
    (r : ℕ) (p : List ℕ)
    → r ≢ b'*'
    → r ≢ b'?'
    → ((s : List ℕ) → match_items (map item_of p) s ≡ true → GlobMatches p s)
    → (s : List ℕ) → match_items (literal r ∷ map item_of p) s ≡ true
    → GlobMatches (r ∷ p) s
unfolding match_items
literal_sound r p ns nq rest [] h = absurd (ground (arith, h))
literal_sound r p ns nq rest (c ∷ s) h = same ns nq (ground (arith, h)) (rest s (ground (arith, h)))

item_star : (r : ℕ) → r ≡ b'*' → item_of r ≡ star
unfolding item_of
item_star r e = rw e refl

item_any : (r : ℕ) → r ≡ b'?' → item_of r ≡ any_char
unfolding item_of
item_any r e = rw e refl

item_literal : (r : ℕ) → r ≢ b'*' → r ≢ b'?' → item_of r ≡ literal r
unfolding item_of
item_literal r ns nq = elim (Bool-cases (r == b'*')) [
  | inl e ↦ absurd (ns ((==_iff r b'*').0 e))
  | inr e ↦ elim (Bool-cases (r == b'?')) [
    | inl d ↦ absurd (nq ((==_iff r b'?').0 d))
    | inr d ↦ rw (item_of, e, d) refl
  ]
]

match_items_sound : (p s : List ℕ) → match_items (map item_of p) s ≡ true → GlobMatches p s
unfolding match_items
match_items_sound [] [] h = done
match_items_sound [] (c ∷ s) h = absurd (ground (arith, h))
match_items_sound (r ∷ p) s h =
    let moved : (x : Item) → item_of r ≡ x → match_items (x ∷ map item_of p) s ≡ true =
      λ x e. subst (λ y. match_items (y ∷ map item_of p) s ≡ true) e h in
    elim (Bool-cases (r == b'*')) [
      | inl e ↦
          let q = (==_iff r b'*').0 e in
          star_sound r p q (match_items_sound p) s (moved star (item_star r q))
      | inr e ↦ elim (Bool-cases (r == b'?')) [
        | inl d ↦
            let q = (==_iff r b'?').0 d in
            any_sound r p q (match_items_sound p) s (moved any_char (item_any r q))
        | inr d ↦
            let ns : r ≢ b'*' = ground (arith, e) in
            let nq : r ≢ b'?' = ground (arith, d) in
            literal_sound r p ns nq (match_items_sound p) s
              (moved (literal r) (item_literal r ns nq))
      ]
    ]

leave_star : (p : List Item) (s : List ℕ) → match_items p s ≡ true → match_items (star ∷ p) s ≡ true
unfolding match_items
leave_star p [] h = h
leave_star p (c ∷ s) h = ground (arith, h)

take_star :
    (p : List Item) (c : ℕ) (s : List ℕ)
    → c ≢ newline
    → match_items (star ∷ p) s ≡ true
    → match_items (star ∷ p) (c ∷ s) ≡ true
unfolding match_items
take_star p c s n h = ground (arith, n, h)

match_items_complete : {p s : List ℕ} → GlobMatches p s → match_items (map item_of p) s ≡ true
unfolding match_items
match_items_complete done = refl
match_items_complete (same {r = r} ns nq e d) =
    let rest = match_items_complete d in rw (item_literal r ns nq) (ground (arith, e, rest))
match_items_complete (one {r = r} q n d) =
    let rest = match_items_complete d in rw (item_any r q) (ground (arith, n, rest))
match_items_complete (leave {r = r} {p = p} {s = s} q d) =
    rw (item_star r q) (leave_star (map item_of p) s (match_items_complete d))
match_items_complete (take {r = r} {c = c} {p = p} {s = s} q n d) =
    let rest = match_items_complete d in
    rw (item_star r q) (
      take_star (map item_of p) c s n
        (subst (λ y. match_items (y ∷ map item_of p) s ≡ true) (item_star r q) rest))

-- A path matches a glob exactly when its runes can be read off the runes of the glob: `*` stands for any
-- run of runes other than a newline, `?` for one such rune, and any other rune for itself.
pub match_glob_iff :
    (glob path : Text) → (match_glob glob path ≡ true) ↔ GlobMatches (runes glob) (runes path)
unfolding match_glob compile_glob
match_glob_iff glob path = (match_items_sound (runes glob) (runes path), match_items_complete)
