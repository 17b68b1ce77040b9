-- ===== src/Cleanup/Indices/Laws.antt =====
-- Accepted indices are in range, without repetition, and not empty.
use dup_detector.Prelude.{
  select, not, ℕ, zero, suc, ◌+◌, ◌-◌, ◌≤◌, ◌<◌, ◌≡◌, refl, ◌⊎◌, inl, inr, true, false, some, List,
  [], ◌∷◌, ◌++◌, arith, ltb, ◌||◌, has, nat_eq, Distinct, length, Bool-cases, Option-cases, list_eq,
  ◌==◌,
}
use dup_detector.Text.{Text, split, trim_space}
use dup_detector.Cleanup.Actions.Picks.{AllBelow}
use dup_detector.Cleanup.Indices.{
  add_index, add_range, part_bounds, parse_part, parse_parts, parse_indices,
}

-- 0-based indices below `max`, each once
pub record IsSelection (max : ℕ) (js : List ℕ) : Type 0 where
  pub below : AllBelow max js
  pub distinct : Distinct js

has-append_one : (i j : ℕ) (js : List ℕ) → has i (js ++ j ∷ []) ≡ (has i js || i == j)
has-append_one i j [] = ground arith
has-append_one i j (k ∷ js) = ground (arith, has-append_one i j js)

AllBelow-append : (n j : ℕ) (js : List ℕ) → AllBelow n js → j < n → AllBelow n (js ++ j ∷ [])
AllBelow-append n j [] b h = (h, tt)
AllBelow-append n j (k ∷ js) b h = (b.0, AllBelow-append n j js b.1 h)

Distinct-append : (j : ℕ) (js : List ℕ) → Distinct js → has j js ≡ false → Distinct (js ++ j ∷ [])
Distinct-append j [] d h = (refl, tt)
Distinct-append j (k ∷ js) d h =
    (ground (arith, has-append_one k j js), Distinct-append j js d.1 (ground arith))

add_index-IsSelection :
    (max n : ℕ) (js : List ℕ)
    → 1 ≤ n
    → n ≤ max
    → IsSelection max js
    → IsSelection max (add_index n js)
unfolding add_index
add_index-IsSelection max n js lo hi s = elim (Bool-cases (has (n - 1) js)) [
  | inl e ↦ rw e s
  | inr e ↦ rw e (record {
    below = AllBelow-append max (n - 1) js s.below (omega arith);
    distinct = Distinct-append (n - 1) js s.distinct e;
  })
]

add_range-IsSelection :
    (max lo rounds : ℕ) (js : List ℕ)
    → 1 ≤ lo
    → lo + rounds ≤ max + 1
    → IsSelection max js
    → IsSelection max (add_range lo rounds js)
unfolding add_range
add_range-IsSelection max lo zero js l h s = s
add_range-IsSelection max lo (suc rounds) js l h s =
    add_range-IsSelection max (suc lo) rounds (add_index lo js) (omega arith) (omega arith)
      (add_index-IsSelection max lo js l (omega arith) s)

in_bounds :
    (lo hi max : ℕ)
    → (ltb lo 1 || ltb max hi || ltb hi lo) ≡ false
    → (1 ≤ lo) × (hi ≤ max) × (lo ≤ hi)
in_bounds lo hi max h = ground arith

parse_part-IsSelection :
    (max : ℕ) (part : Text) (js ks : List ℕ)
    → IsSelection max js
    → parse_part max part js ≡ some ks
    → IsSelection max ks
unfolding parse_part
parse_part-IsSelection max part js ks s h = elim (Option-cases (part_bounds part)) [
  | inl e ↦ absurd (ground arith)
  | inr ((lo, hi), e) ↦ elim (Bool-cases (ltb lo 1 || ltb max hi || ltb hi lo)) [
    | inl bad ↦ absurd (ground arith)
    | inr good ↦
        let (l, u, o) = in_bounds lo hi max good in
        let q : some (add_range lo (hi + 1 - lo) js) ≡ some ks = rw (e, good) at h in
        let same : add_range lo (hi + 1 - lo) js ≡ ks = cc in
        rw same at (add_range-IsSelection max lo (hi + 1 - lo) js l (omega arith) s)
  ]
]

parse_parts-IsSelection :
    (max : ℕ) (parts : List Text) (js ks : List ℕ)
    → IsSelection max js
    → parse_parts max parts js ≡ some ks
    → IsSelection max ks
unfolding parse_parts
parse_parts-IsSelection max [] js ks s h = let same : js ≡ ks = ground arith in rw same at s
parse_parts-IsSelection max (p ∷ parts) js ks s h = elim (Bool-cases (list_eq (trim_space p) [])) [
  | inl e ↦ absurd (ground arith)
  | inr e ↦ elim (Option-cases (parse_part max (trim_space p) js)) [
    | inl q ↦ absurd (ground arith)
    | inr (ms, q) ↦
        parse_parts-IsSelection max parts ms ks
          (parse_part-IsSelection max (trim_space p) js ms s q) (ground arith)
  ]
]

-- What is accepted selects at least one copy, only copies that are listed, and none twice.
pub parse_indices-IsSelection :
    (input : Text) (max : ℕ) (js : List ℕ)
    → parse_indices input max ≡ some js
    → IsSelection max js × (0 < length js)
unfolding parse_indices
parse_indices-IsSelection input max js h =
    elim (Option-cases (parse_parts max (split input b',') [])) [
      | inl e ↦ absurd (ground arith)
      | inr (ks, e) ↦
          let same : ks ≡ js = ground arith in
          (
            rw same at (
                parse_parts-IsSelection max (split input b',') [] ks
                  (record { below = tt; distinct = tt }) e),
            ground arith,
          )
    ]

without : ℕ → List ℕ → List ℕ
without k js = select (λ j. not (j == k)) js

has-without : (i k : ℕ) (js : List ℕ) → i < k → has i js ≡ true → has i (without k js) ≡ true
unfolding without
has-without i k [] h m = m
has-without i k (j ∷ js) h m = elim (Bool-cases (j == k)) [
  | inl e ↦ rw e (has-without i k js h (ground arith))
  | inr e ↦ rw e (elim (Bool-cases (i == j)) [
    | inl q ↦ ground arith
    | inr q ↦ ground (arith, has-without i k js h)
  ])
]

length-without-le : (k : ℕ) (js : List ℕ) → length (without k js) ≤ length js
unfolding without
length-without-le k [] = omega arith
length-without-le k (j ∷ js) = ground (arith, length-without-le k js)

length-without-lt : (k : ℕ) (js : List ℕ) → has k js ≡ true → length (without k js) < length js
unfolding without
length-without-lt k [] h = absurd (ground arith)
length-without-lt k (j ∷ js) h = elim (Bool-cases (j == k)) [
  | inl e ↦ rw e (omega (arith, length-without-le k js))
  | inr e ↦ rw e (omega (arith, length-without-lt k js (ground arith)))
]

covered : (n : ℕ) (js : List ℕ) → ((i : ℕ) → i < n → has i js ≡ true) → n ≤ length js
covered zero js h = omega arith
covered (suc n) js h = omega (
  arith,
  covered n (without n js) (λ i l. has-without i n js l (h i (omega arith))),
  length-without-lt n js (h n (omega arith)),
)

search_free :
    (n : ℕ) (js : List ℕ)
    → ((i : ℕ) × (i < n) × (has i js ≡ false)) ⊎ ((i : ℕ) → i < n → has i js ≡ true)
search_free zero js = inr (λ i h. absurd (omega arith))
search_free (suc n) js = elim (Bool-cases (has n js)) [
  | inr e ↦ inl (n, omega arith, e)
  | inl e ↦ elim (search_free n js) [
    | inl (i, l, q) ↦ inl (i, omega arith, q)
    | inr all ↦
        inr (λ i l. elim (Bool-cases (i == n)) [
          | inl q ↦ ground arith
          | inr q ↦ all i (ground arith)
        ])
  ]
]

-- Fewer indices than copies leave a copy out.
pub left_out : (n : ℕ) (js : List ℕ) → length js < n → (i : ℕ) × (i < n) × (has i js ≡ false)
left_out n js h = elim (search_free n js) [
  | inl free ↦ free
  | inr all ↦ absurd (omega (arith, covered n js all))
]
