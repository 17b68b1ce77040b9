-- ===== src/Copy/Pool.antt =====
-- The workers of copyPath (copy.go): the walk sends jobs to a channel, and workers take them, copy, and
-- go through a lock one after the other.
pub mod Laws
use dup_detector.Prelude.{ℕ, suc, ◌*◌, ◌<◌, ◌≡◌, List, [], ◌∷◌, ◌++◌, length}
use dup_detector.Copy.Tree.{Job}

-- the jobs that the walk has yet to send, those in the channel and with workers, and those that went
-- through the lock, in their order
pub record Pool : Type 0 where
  pub unsent : List Job
  pub channel : List Job
  pub working : List Job
  pub ended : List Job

unfoldable pub start_pool : List Job → Pool
start_pool jobs = record { unsent = jobs; channel = []; working = []; ended = [] }

-- One step of some goroutine: the channel holds twice as many jobs as there are workers.
pub data Step (transfers : ℕ) (p q : Pool) : Type 0 where
  send :
      (j : Job) (rest : List Job)
      → p.unsent ≡ j ∷ rest
      → length p.channel < transfers * 2
      → q ≡ record p { unsent = rest; channel = p.channel ++ j ∷ [] }
      → Step transfers p q
  receive :
      (j : Job) (rest : List Job)
      → p.channel ≡ j ∷ rest
      → length p.working < transfers
      → q ≡ record p { channel = rest; working = j ∷ p.working }
      → Step transfers p q
  finish :
      (j : Job) (before after : List Job)
      → p.working ≡ before ++ j ∷ after
      → q ≡ record p { working = before ++ after; ended = p.ended ++ j ∷ [] }
      → Step transfers p q

-- the states of a run, by the number of its steps
pub data Runs (transfers : ℕ) (s : Pool) : ℕ → Pool → Type 0 where
  here : Runs transfers s 0 s
  next :
      {n : ℕ} {p q : Pool} → Runs transfers s n p → Step transfers p q → Runs transfers s (suc n) q
