-- ===== src/Copy/Pool/Laws.antt =====
-- What every interleaving of the workers keeps, and that each ends with every job done.
use dup_detector.Prelude.{
  Bool, ℕ, suc, ◌+◌, ◌*◌, ◌≤◌, ◌≡◌, refl, ap, ◌∙◌, ◌⊎◌, inl, inr, List, [], ◌∷◌, ◌++◌, Permᴰ, arith,
  length, length-append, perm-refl, perm-sym,
}
use mathlib.Core.Path.{subst}
use mathlib.Core.List.{append_assoc, append-nil}
use dup_detector.Prelude.Runs.{Run, done, failed, panic}
use dup_detector.Text.{Text}
use dup_detector.Cache.{FileMetadata}
use dup_detector.Copy.Tree.{Job, after_copy, collect_results}
use dup_detector.Copy.Pool.{Pool, start_pool, Step, send, receive, finish, Runs, here, next}

-- all jobs, wherever they are
abbrev pub jobs_of : Pool → List Job
jobs_of p = p.unsent ++ (p.channel ++ (p.working ++ p.ended))

-- the steps to come
abbrev weight : Pool → ℕ
weight p = 3 * length p.unsent + 2 * length p.channel + length p.working

-- no job is lost or doubled, and neither the channel nor the workers hold too many
abbrev pub IsKept : ℕ → List Job → Pool → Type 0
IsKept transfers jobs p =
    Permᴰ (jobs_of p) jobs × (length p.channel ≤ transfers * 2) × (length p.working ≤ transfers)

perm-middle : (j : Job) (xs ys : List Job) → Permᴰ (xs ++ j ∷ ys) (j ∷ (xs ++ ys))
perm-middle j [] ys = perm-refl (j ∷ ys)
perm-middle j (x ∷ xs) ys =
    Permᴰ.trans (Permᴰ.cons refl (perm-middle j xs ys)) (Permᴰ.swap refl refl)

perm-append : (xs : List Job) {ys zs : List Job} → Permᴰ ys zs → Permᴰ (xs ++ ys) (xs ++ zs)
perm-append [] p = p
perm-append (x ∷ xs) p = Permᴰ.cons refl (perm-append xs p)

sent : (j : Job) (u c r : List Job) → Permᴰ (u ++ ((c ++ j ∷ []) ++ r)) (j ∷ (u ++ (c ++ r)))
sent j u c r =
    rw (append_assoc c (j ∷ []) r)
      (Permᴰ.trans (perm-append u (perm-middle j c r)) (perm-middle j u (c ++ r)))

finished : (j : Job) (b a e : List Job) → Permᴰ ((b ++ a) ++ (e ++ j ∷ [])) ((b ++ j ∷ a) ++ e)
finished j b a e =
    let back : Permᴰ ((b ++ j ∷ a) ++ e) (j ∷ ((b ++ a) ++ e)) =
      rw (append_assoc b (j ∷ a) e, append_assoc b a e) (perm-middle j b (a ++ e)) in
    let front : Permᴰ (((b ++ a) ++ e) ++ j ∷ []) (j ∷ ((b ++ a) ++ e)) =
      subst (λ l. Permᴰ (((b ++ a) ++ e) ++ j ∷ []) (j ∷ l)) (append-nil ((b ++ a) ++ e))
        (perm-middle j ((b ++ a) ++ e) []) in
    subst (λ l. Permᴰ l ((b ++ j ∷ a) ++ e)) (append_assoc (b ++ a) e (j ∷ []))
      (Permᴰ.trans front (perm-sym back))

Step-IsKept :
    (transfers : ℕ) (jobs : List Job) (p q : Pool)
    → Step transfers p q
    → IsKept transfers jobs p
    → IsKept transfers jobs q × (suc (weight q) ≡ weight p)
Step-IsKept transfers jobs p q (send j rest e room d) (perm, c, w) =
    let whole = subst (λ u. Permᴰ (u ++ (p.channel ++ (p.working ++ p.ended))) jobs) e perm in
    let fewer = ap length e in
    let longer = length-append p.channel (j ∷ []) in
    rw d (
      (
        Permᴰ.trans (sent j rest p.channel (p.working ++ p.ended)) whole,
        omega (arith, longer, room),
        w,
      ),
      omega (arith, longer, fewer),
    )
Step-IsKept transfers jobs p q (receive j rest e room d) (perm, c, w) =
    let whole = subst (λ u. Permᴰ (p.unsent ++ (u ++ (p.working ++ p.ended))) jobs) e perm in
    let fewer = ap length e in
    let moved = perm-append p.unsent (perm-middle j rest (p.working ++ p.ended)) in
    rw d (
      (Permᴰ.trans moved whole, omega (arith, fewer, c), omega (arith, room)),
      omega (arith, fewer),
    )
Step-IsKept transfers jobs p q (finish j before after e d) (perm, c, w) =
    let whole = subst (λ u. Permᴰ (p.unsent ++ (p.channel ++ (u ++ p.ended))) jobs) e perm in
    let fewer = ap length e ∙ length-append before (j ∷ after) in
    let joined = length-append before after in
    let moved = perm-append p.unsent (perm-append p.channel (finished j before after p.ended)) in
    rw d
      ((Permᴰ.trans moved whole, c, omega (arith, fewer, joined, w)), omega (arith, fewer, joined))

Runs-IsKept :
    (transfers : ℕ) (jobs : List Job) (n : ℕ) (p : Pool)
    → Runs transfers (start_pool jobs) n p
    → IsKept transfers jobs p × (n + weight p ≡ 3 * length jobs)
unfolding start_pool
Runs-IsKept transfers jobs n p here =
    ((rw (append-nil jobs) (perm-refl jobs), omega arith, omega arith), omega arith)
Runs-IsKept transfers jobs n q (next {n = m} {p = p} run step) =
    let (kept, total) = Runs-IsKept transfers jobs m p run in
    let (kept', less) = Step-IsKept transfers jobs p q step kept in
    (kept', omega (arith, total, less))

list_cases : (xs : List Job) → (xs ≡ []) ⊎ ((j : Job) × (rest : List Job) × (xs ≡ j ∷ rest))
list_cases [] = inl refl
list_cases (j ∷ rest) = inr (j, rest, refl)

-- A pool that is not done can go on.
not_stuck :
    (transfers : ℕ) (p : Pool)
    → 1 ≤ transfers
    → ((q : Pool) × Step transfers p q) ⊎ ((p.unsent ≡ []) × (p.channel ≡ []) × (p.working ≡ []))
not_stuck transfers p some_worker = elim (list_cases p.working) [
  | inr (j, rest, e) ↦ inl (_, finish j [] rest e refl)
  | inl idle ↦ elim (list_cases p.channel) [
    | inr (j, rest, e) ↦ inl (
      _,
      receive j rest e (let none_works = ap length idle in omega (arith, none_works, some_worker))
          refl,
    )
    | inl drained ↦ elim (list_cases p.unsent) [
      | inr (j, rest, e) ↦ inl (
        _,
        send j rest e (let none_waits = ap length drained in omega (arith, none_waits, some_worker))
            refl,
      )
      | inl all_sent ↦ inr (all_sent, drained, idle)
    ]
  ]
]

-- With one worker or more, and in every interleaving: no job is lost or done twice, the channel and the
-- workers never hold more than they may, no more than three steps are taken for each job, and a state
-- that cannot go on has taken all of them and has every job behind it.
pub Runs-IsComplete :
    (transfers : ℕ) (jobs : List Job) (n : ℕ) (p : Pool)
    → 1 ≤ transfers
    → Runs transfers (start_pool jobs) n p
    → IsKept transfers jobs p
      × (n ≤ 3 * length jobs)
      × (((q : Pool) × Step transfers p q) ⊎ ((n ≡ 3 * length jobs) × Permᴰ p.ended jobs))
Runs-IsComplete transfers jobs n p some_worker run =
    let (kept, total) = Runs-IsKept transfers jobs n p run in
    (
      kept,
      omega (arith, total),
      elim (not_stuck transfers p some_worker) [
        | inl more ↦ inl more
        | inr (all_sent, drained, idle) ↦
            let a = ap length all_sent in
            let b = ap length drained in
            let c = ap length idle in
            let whole : jobs_of p ≡ p.ended =
              ap (λ u. u ++ (p.channel ++ (p.working ++ p.ended))) all_sent
              ∙ (ap (λ u. u ++ (p.working ++ p.ended)) drained ∙ ap (λ u. u ++ p.ended) idle) in
            inr (omega (arith, total, a, b, c), subst (λ l. Permᴰ l jobs) whole kept.0)
      ],
    )

-- both with an error or both without, and the same files in some order
abbrev Alike : Bool × List (Text × FileMetadata) → Bool × List (Text × FileMetadata) → Type 0
Alike r s = (r.0 ≡ s.0) × Permᴰ r.1 s.1

after_copy-Alike :
    (x : Run FileMetadata) (t : Text) (r s : Bool × List (Text × FileMetadata))
    → Alike r s
    → Alike (after_copy x t r) (after_copy x t s)
unfolding after_copy
after_copy-Alike (done meta) t r s (e, p) = (e, Permᴰ.cons refl p)
after_copy-Alike failed t r s (e, p) = (refl, p)
after_copy-Alike panic t r s (e, p) = (refl, p)

after_copy_swap :
    (x y : Run FileMetadata) (t u : Text) (r : Bool × List (Text × FileMetadata))
    → Alike (after_copy x t (after_copy y u r)) (after_copy y u (after_copy x t r))
unfolding after_copy
after_copy_swap (done m) (done n) t u r = (refl, Permᴰ.swap refl refl)
after_copy_swap (done m) failed t u r = (refl, perm-refl _)
after_copy_swap (done m) panic t u r = (refl, perm-refl _)
after_copy_swap failed (done n) t u r = (refl, perm-refl _)
after_copy_swap failed failed t u r = (refl, perm-refl _)
after_copy_swap failed panic t u r = (refl, perm-refl _)
after_copy_swap panic (done n) t u r = (refl, perm-refl _)
after_copy_swap panic failed t u r = (refl, perm-refl _)
after_copy_swap panic panic t u r = (refl, perm-refl _)

module _ (copy : Job → Run FileMetadata) where
  -- The order in which jobs come to the lock makes no difference to whether there is an error, nor to
  -- which files are reported, up to their order.
  results_perm :
      {xs ys : List Job} → Permᴰ xs ys → Alike (collect_results copy xs) (collect_results copy ys)
  unfolding collect_results
  results_perm Permᴰ.nil = (refl, Permᴰ.nil)
  results_perm (Permᴰ.cons {a = a} {b = b} e p) =
      rw e (after_copy-Alike (copy b) b.target _ _ (results_perm p))
  results_perm (Permᴰ.swap {a = a} {b = b} {a' = a'} {b' = b'} e d) =
      rw (e, d) (after_copy_swap (copy b') (copy a') b'.target a'.target _)
  results_perm (Permᴰ.trans p q) =
      ((results_perm p).0 ∙ (results_perm q).0, Permᴰ.trans (results_perm p).1 (results_perm q).1)

  -- However the workers interleave, the results of a run that has come to its end are those of copying
  -- the jobs one after the other: whether there is an error, and which files are reported, up to their
  -- order.
  pub Runs-collect_results :
      (transfers : ℕ) (jobs : List Job) (p : Pool)
      → 1 ≤ transfers
      → Runs transfers (start_pool jobs) (3 * length jobs) p
      → ((collect_results copy p.ended).0 ≡ (collect_results copy jobs).0)
        × Permᴰ (collect_results copy p.ended).1 (collect_results copy jobs).1
  Runs-collect_results transfers jobs p some_worker run =
      let (kept, most, end) = Runs-IsComplete transfers jobs (3 * length jobs) p some_worker run in
      elim end [
        | inl (q, more) ↦ absurd (
            let (kept', total) =
              Runs-IsKept transfers jobs (suc (3 * length jobs)) q (next run more) in
            omega (arith, total))
        | inr (all, perm) ↦ results_perm perm
      ]
