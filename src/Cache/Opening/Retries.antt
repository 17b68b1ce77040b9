-- ===== src/Cache/Opening/Retries.antt =====
-- The tries that execRetry (cache.go) makes.
use dup_detector.Prelude.{
  ℕ, zero, suc, ◌+◌, ◌-◌, ◌≤◌, ◌<◌, ◌≡◌, ap, ◌⊎◌, inl, inr, true, false, Option, none, arith, ◌==◌,
  ==_iff, Bool-cases, ◌==◌, ==_iff,
}
use dup_detector.Text.{Text}
use dup_detector.Cache.Opening.{is_busy_err, retry_loop, exec_retry}

-- `n` is the number of tries from the i-th on: all but the last met a busy database, and either the last
-- did not, or no try is left.
abbrev pub AreTries : (ℕ → Option Text) → ℕ → ℕ → Option Text × ℕ → Type 0
AreTries exec left i (err, n) =
    (i < n)
    × (n ≤ i + left)
    × (err ≡ exec (n - 1))
    × ((k : ℕ) → i ≤ k → suc k < n → is_busy_err (exec k) ≡ true)
    × ((is_busy_err err ≡ false) ⊎ (n ≡ i + left))

pred_suc : (i : ℕ) → i ≡ suc i - 1
pred_suc i = omega arith

-- one try that met no busy database
stopped :
    (exec : ℕ → Option Text) (left i : ℕ)
    → is_busy_err (exec i) ≡ false
    → AreTries exec (suc left) i (exec i, suc i)
stopped exec left i e = (
  omega arith,
  omega arith,
  ap exec (pred_suc i),
  λ k low high. absurd (omega (arith, low, high)),
  inl e,
)

-- one try that did, and those after it
continued :
    (exec : ℕ → Option Text) (left i : ℕ) (out : Option Text × ℕ)
    → is_busy_err (exec i) ≡ true
    → AreTries exec left (suc i) out
    → AreTries exec (suc left) i out
continued exec left i (err, n) e (low, high, last, busy, end) = (
  omega (arith, low),
  omega (arith, high),
  last,
  λ k from to. elim (Bool-cases (k == i)) [
    | inl same ↦ let q = (==_iff k i).0 same in rw q e
    | inr later ↦ busy k (ground (arith, later, from)) to
  ],
  elim end [ inl done_now ↦ inl done_now | inr all ↦ inr (omega (arith, all)) ],
)

-- the last of the tries that are left meets a busy database
busy_last :
    (exec : ℕ → Option Text) (i : ℕ)
    → is_busy_err (exec i) ≡ true
    → AreTries exec 1 i (exec i, suc i)
busy_last exec i e = (
  omega arith,
  omega arith,
  ap exec (pred_suc i),
  λ k low high. absurd (omega (arith, low, high)),
  inr (omega arith),
)

retry_loop-AreTries :
    (exec : ℕ → Option Text) (left i : ℕ) (err : Option Text)
    → AreTries exec (suc left) i (retry_loop exec (suc left) i err)
unfolding retry_loop
retry_loop-AreTries exec zero i err = elim (Bool-cases (is_busy_err (exec i))) [
  | inr e ↦ rw (retry_loop, e) (stopped exec 0 i e)
  | inl e ↦ rw (retry_loop, e) (busy_last exec i e)
]
retry_loop-AreTries exec (suc left) i err = elim (Bool-cases (is_busy_err (exec i))) [
  | inr e ↦ rw (retry_loop, e) (stopped exec (suc left) i e)
  | inl e ↦
      rw (retry_loop, e)
        (continued exec (suc left) i (retry_loop exec (suc left) (suc i) (exec i)) e
          (retry_loop-AreTries exec left (suc i) (exec i)))
]

-- The query is tried 60 times at most. What is returned is the answer of the last try made; each earlier
-- try met a busy database, and the last one too only if it was the 60th.
pub exec_retry-AreTries : (exec : ℕ → Option Text) → AreTries exec 60 0 (exec_retry exec)
unfolding exec_retry
exec_retry-AreTries exec = retry_loop-AreTries exec 59 0 none
