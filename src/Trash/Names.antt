-- ===== src/Trash/Names.antt =====
-- The loop of trashFile (trash.go) over the names in the trash.
use dup_detector.Prelude.{
  ℕ, zero, suc, ◌+◌, ◌≤◌, ◌<◌, ◌≡◌, refl, sym, ap, ◌∙◌, inl, inr, true, false, ◌&&◌, none, some,
  ◌++◌, arith, length, length-append, Bool-cases, ==_iff, ◌==◌, Bool,
}
use dup_detector.Text.{Text, codes}
use dup_detector.Scan.{child_path}
use dup_detector.Text.Decimals.{decimal}
use dup_detector.Trash.{System, info_name, candidate, is_free, pick_name}

longer_append : (a b : Text) → length a ≤ length (a ++ b)
longer_append a b = let e = length-append a b in omega (arith, e)

last_false : (a b : Bool) → b ≡ false → (a && b) ≡ false
last_false true b e = e
last_false false b e = refl

module _ (system : System) (files_dir info_dir base : Text) where
  past :
      (i k : ℕ)
      → i ≤ k
      → is_free system files_dir info_dir (candidate base i) ≡ false
      → is_free system files_dir info_dir (candidate base k) ≡ true
      → suc i ≤ k
  past i k low a free = elim (Bool-cases (i == k)) [
    | inr e ↦ ground (arith, e)
    | inl e ↦
        let same =
          ap (λ n. is_free system files_dir info_dir (candidate base n)) ((==_iff i k).0 e) in
        absurd (ground (arith, sym a ∙ same ∙ free))
  ]

  from_next :
      (i j n : ℕ)
      → is_free system files_dir info_dir (candidate base i) ≡ false
      → i ≤ n
      → n < j
      → ((n : ℕ) → suc i ≤ n → n < j → is_free system files_dir info_dir (candidate base n) ≡ false)
      → is_free system files_dir info_dir (candidate base n) ≡ false
  from_next i j n a x y later = elim (Bool-cases (i == n)) [
    | inr e ↦ later n (ground (arith, e)) y
    | inl e ↦ rw (← (==_iff i n).0 e) a
  ]

  pick_from :
      (fuel i k : ℕ)
      → i ≤ k
      → k < i + fuel
      → is_free system files_dir info_dir (candidate base k) ≡ true
      → (j : ℕ) × (i ≤ j)
        × (j ≤ k)
        × (pick_name system fuel files_dir info_dir base i ≡ some (candidate base j))
        × (is_free system files_dir info_dir (candidate base j) ≡ true)
        × ((n : ℕ) → i ≤ n → n < j → is_free system files_dir info_dir (candidate base n) ≡ false)
  unfolding pick_name
  pick_from zero i k low high free = absurd (omega arith)
  pick_from (suc fuel) i k low high free =
      elim (Bool-cases (is_free system files_dir info_dir (candidate base i))) [
        | inl a ↦ (i, omega arith, low, rw a refl, a, λ n p q. absurd (omega arith))
        | inr a ↦
            let (j, p, q, e, f, none_before) =
              pick_from fuel (suc i) k (past i k low a free) (omega arith) free in
            (j, omega arith, q, rw a e, f, λ n x y. from_next i j n a x y none_before)
      ]

  -- If some candidate is free, the loop ends within as many steps as it takes to reach it, with the
  -- first candidate that is free.
  pub pick_name-first :
      (fuel k : ℕ)
      → k < fuel
      → is_free system files_dir info_dir (candidate base k) ≡ true
      → (j : ℕ) × (j ≤ k)
        × (pick_name system fuel files_dir info_dir base 0 ≡ some (candidate base j))
        × (is_free system files_dir info_dir (candidate base j) ≡ true)
        × ((n : ℕ) → n < j → is_free system files_dir info_dir (candidate base n) ≡ false)
  pick_name-first fuel k bound free =
      let (j, p, q, e, f, none_before) = pick_from fuel 0 k (omega arith) (omega arith) free in
      (j, q, e, f, λ n. none_before n (omega arith))

  candidate_next : (i : ℕ) → candidate base (suc i) ≡ base ++ codes "." ++ decimal (suc i)
  unfolding candidate
  candidate_next i = refl

  candidate_first : candidate base 0 ≡ base
  unfolding candidate
  candidate_first = refl

  long_candidate : (i : ℕ) → length base ≤ length (candidate base i)
  long_candidate zero = rw candidate_first (omega arith)
  long_candidate (suc i) =
      let a = length-append base (codes ".") in
      let b = length-append (base ++ codes ".") (decimal (suc i)) in
      let c = length-append base (codes "." ++ decimal (suc i)) in
      rw (candidate_next i) (omega (arith, a, b, c))

  stuck_from :
      (fuel i : ℕ)
      → ((n : ℕ) → is_free system files_dir info_dir (candidate base n) ≡ false)
      → pick_name system fuel files_dir info_dir base i ≡ none
  unfolding pick_name
  stuck_from zero i never = refl
  stuck_from (suc fuel) i never = rw (never i) (stuck_from fuel (suc i) never)

  -- Where Lstat does not report a path with a longer last component than the limit as missing, the loop
  -- never ends for a name that is longer than the limit with `.trashinfo` after it.
  pub pick_name-stuck :
      (limit : ℕ)
      → ((name : Text) → limit < length name → system.absent (child_path info_dir name) ≡ false)
      → limit < length base + 10
      → (fuel : ℕ) → pick_name system fuel files_dir info_dir base 0 ≡ none
  unfolding is_free
  pick_name-stuck limit long bound fuel = stuck_from fuel 0 (λ n.
      let e = length-append (candidate base n) (codes ".trashinfo") in
      let longer = long_candidate n in
      let z = long (info_name (candidate base n)) (omega (arith, e)) in last_false _ _ z)
