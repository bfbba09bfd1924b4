-- ===== src/Worker/Shutdown.antt =====
-- packages/worker/src/shutdown.js. A poll is what the waiting loop reads: how many jobs are in
-- flight, and the clock.
pub mod Deadline
use distributed_job_queue.Base.{
  ℕ, zero, suc, ◌+◌, Bool, true, false, ◌||◌, Option, none, some, List, [], ◌∷◌, leb, ◌==◌,
  if◌then◌else◌,
}

pub record Poll : Type 0 where
  pub in_flight : ℕ
  pub now : ℕ

pub data Ending : Type 0 where
  already_draining waiting all_finished : Ending
  grace_elapsed : (remaining : ℕ) → Ending

-- What the loop is left with.
abbrev pub ended : (in_flight : ℕ) → Ending
ended zero = all_finished
ended (suc n) = grace_elapsed (suc n)

-- The waiting loop; where the polls run out it still waits.
unfoldable pub await_idle : (deadline : ℕ) → List Poll → Ending
await_idle deadline [] = waiting
await_idle deadline (p ∷ ps) =
    let rest = await_idle deadline ps in
    if p.in_flight == 0 || leb deadline p.now then ended p.in_flight else rest

-- `drain`: the new value of `draining`, and how the wait ends. A second call does not wait.
unfoldable pub drain : (draining : Bool) → (grace_period_ms now : ℕ) → List Poll → Bool × Ending
unfolding await_idle
drain true grace_period_ms now polls = (true, already_draining)
drain false grace_period_ms now polls = (true, await_idle (now + grace_period_ms) polls)
