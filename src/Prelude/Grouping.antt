-- ===== src/Prelude/Grouping.antt =====
-- A Go map of slices, filled by `m[k] = append(m[k], x)`, as an association list in the order in
-- which the keys came. A `range` over it visits the entries in an order of its own.
use mathlib.Core.Path.{◌≡◌, refl, sym, ap, ◌∙◌}
use mathlib.Core.Logic.{◌≢◌, inl, inr}
use mathlib.Core.Bool.{true, ◌||◌}
use mathlib.Core.List.{List, [], ◌∷◌, ◌++◌, map, Memᴰ, append-nil, append_assoc}
use native.Mathlib.Omega.{arith}
use dup_detector.Prelude.Tests.{if◌then◌else◌, Eq, Bool-cases}
use dup_detector.Prelude.Lists.{has, Distinct, mem-cons_cases, mem-has, mem-map}

module _ {ℓ} {K V : Type ℓ} ⦃e : Eq K⦄ where
  unfoldable pub append_at : K → V → List (K × List V) → List (K × List V)
  append_at k x [] = (k, x ∷ []) ∷ []
  append_at k x ((j, vs) ∷ m) =
      let rest = append_at k x m in if e.beq j k then (j, vs ++ x ∷ []) ∷ m else (j, vs) ∷ rest

  unfoldable pub group_from : List (K × V) → List (K × List V) → List (K × List V)
  unfolding append_at
  group_from [] m = m
  group_from ((k, x) ∷ ps) m = group_from ps (append_at k x m)

  -- the loop that fills an empty map
  unfoldable pub group : List (K × V) → List (K × List V)
  unfolding group_from
  group ps = group_from ps []

  -- m[k], which is empty where the key is missing
  unfoldable pub value_at : K → List (K × List V) → List V
  value_at k [] = []
  value_at k ((j, vs) ∷ m) = let rest = value_at k m in if e.beq j k then vs else rest

  -- the values that come with a key, in order
  abbrev pub values_for : K → List (K × V) → List V
  values_for k [] = []
  values_for k ((j, x) ∷ ps) = let rest = values_for k ps in if e.beq j k then x ∷ rest else rest

  abbrev pub keys : List (K × List V) → List K
  keys m = map (λ p. p.0) m

  pub value_at-append_at :
      (k j : K) (x : V) (m : List (K × List V))
      → value_at k (append_at j x m) ≡ (if e.beq j k then value_at k m ++ x ∷ [] else value_at k m)
  unfolding value_at append_at
  value_at-append_at k j x [] = refl
  value_at-append_at k j x ((i, vs) ∷ m) =
      ground (arith, value_at-append_at k j x m, e.beq_iff i j, e.beq_iff i k, e.beq_iff j k)

  value_at-group_from :
      (k : K) (ps : List (K × V)) (m : List (K × List V))
      → value_at k (group_from ps m) ≡ value_at k m ++ values_for k ps
  unfolding group_from
  value_at-group_from k [] m = sym (append-nil (value_at k m))
  value_at-group_from k ((j, x) ∷ ps) m =
      value_at-group_from k ps (append_at j x m) ∙ (elim (Bool-cases (e.beq j k)) [
        | inl h ↦ rw (value_at-append_at k j x m) (rw (h, append_assoc))
        | inr h ↦ rw (value_at-append_at k j x m) (rw h)
      ])

  -- What the filled map holds at a key.
  pub value_at-group : (k : K) (ps : List (K × V)) → value_at k (group ps) ≡ values_for k ps
  unfolding group value_at
  value_at-group k ps = value_at-group_from k ps []

  has-keys-append_at :
      (i k : K) (x : V) (m : List (K × List V))
      → has i (keys (append_at k x m)) ≡ (has i (keys m) || e.beq i k)
  unfolding append_at
  has-keys-append_at i k x [] = ground arith
  has-keys-append_at i k x ((j, vs) ∷ m) = elim (Bool-cases (e.beq j k)) [
    | inl h ↦
        let same : j ≡ k = (e.beq_iff j k).0 h in
        let test : e.beq i j ≡ e.beq i k = ap (e.beq i) same in rw h (ground arith)
    | inr h ↦ rw h (ground (arith, has-keys-append_at i k x m))
  ]

  Distinct-append_at :
      (k : K) (x : V) (m : List (K × List V))
      → Distinct (keys m)
      → Distinct (keys (append_at k x m))
  unfolding append_at
  Distinct-append_at k x [] d = (refl, tt)
  Distinct-append_at k x ((j, vs) ∷ m) d = elim (Bool-cases (e.beq j k)) [
    | inl h ↦ rw h d
    | inr h ↦ rw h (rw (has-keys-append_at j k x m) (ground arith), Distinct-append_at k x m d.1)
  ]

  Distinct-group_from :
      (ps : List (K × V)) (m : List (K × List V))
      → Distinct (keys m)
      → Distinct (keys (group_from ps m))
  unfolding group_from
  Distinct-group_from [] m d = d
  Distinct-group_from ((k, x) ∷ ps) m d =
      Distinct-group_from ps (append_at k x m) (Distinct-append_at k x m d)

  -- No key has two entries.
  pub Distinct-group : (ps : List (K × V)) → Distinct (keys (group ps))
  unfolding group
  Distinct-group ps = Distinct-group_from ps [] tt

  entry_value :
      (k : K) (vs : List V) (m : List (K × List V))
      → Distinct (keys m)
      → Memᴰ (k, vs) m
      → value_at k m ≡ vs
  unfolding value_at
  entry_value k vs [] d h = elim h [ ]
  entry_value k vs ((j, ws) ∷ m) d h = elim (mem-cons_cases h) [
    | inl p ↦ ground (arith, (e.beq_iff k k).1 refl)
    | inr t ↦
        let key_in : has k (keys m) ≡ true = mem-has k (keys m) (mem-map (λ q. q.0) m t) in
        ground (arith, e.beq_iff j k, entry_value k vs m d.1 t)
  ]

  -- Each entry holds the values that came with its key.
  pub group-entry :
      (k : K) (vs : List V) (ps : List (K × V)) → Memᴰ (k, vs) (group ps) → vs ≡ values_for k ps
  unfolding group value_at
  group-entry k vs ps h =
      sym (entry_value k vs (group_from ps []) (Distinct-group_from ps [] tt) h)
      ∙ value_at-group_from k ps []

  entry_of_value : (k : K) (m : List (K × List V)) → value_at k m ≢ [] → Memᴰ (k, value_at k m) m
  unfolding value_at
  entry_of_value k [] h = absurd (h refl)
  entry_of_value k ((j, ws) ∷ m) h = elim (Bool-cases (e.beq j k)) [
    | inl p ↦ rw p (Memᴰ.head (ground (arith, e.beq_iff j k)))
    | inr p ↦ rw p (Memᴰ.tail (entry_of_value k m (rw p at h)))
  ]

  -- A key that came with a value has an entry.
  pub group-entry_of :
      (k : K) (ps : List (K × V)) → values_for k ps ≢ [] → Memᴰ (k, values_for k ps) (group ps)
  group-entry_of k ps h =
      let q = value_at-group k ps in rw q at (entry_of_value k (group ps) (λ z. h (sym q ∙ z)))
