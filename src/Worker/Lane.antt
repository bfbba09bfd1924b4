-- ===== src/Worker/Lane.antt =====
-- runLane of packages/worker/src/index.js, and the worker's entry in the registry. What a turn of the
-- loop reads, the state of the shutdown controller included, comes in a record; a list of them is a
-- finite part of the loop. The lanes share no state but the services and the set of jobs in flight.
pub mod Survival
pub mod Draining
use distributed_job_queue.Base.{ℕ, Bool, Option, none, some, List, [], ◌∷◌, if◌then◌else◌}
use distributed_job_queue.Store.Command.{sadd, srem}
use distributed_job_queue.Store.Program.{Program, ret, await, ◌>>=◌, ◌>>◌, try_catch}
use distributed_job_queue.Worker.Claim.{Claimed, claim_next_job}
use distributed_job_queue.Worker.Process.{Config, Readings, process_job}

pub record Turn : Type 0 where
  pub is_draining : Bool
  pub now : ℕ
  pub readings : Readings

unfoldable pub register_worker : (worker : ℕ) → Program Unit
register_worker worker = await (sadd worker)

unfoldable pub deregister_worker : (worker : ℕ) → Program Unit
deregister_worker worker = await (srem worker)

-- A claim that fails is logged, and the loop goes on as if there were nothing to claim.
unfoldable pub try_claim : (worker now : ℕ) → Program (Option Claimed)
unfolding claim_next_job
try_claim worker now = try_catch (claim_next_job worker now 1) (λ _. ret none)

unfoldable pub try_process : Config → (worker : ℕ) → Readings → Option Claimed → Program Unit
unfolding process_job
try_process cfg worker t none = ret tt
try_process cfg worker t (some claimed) =
    try_catch (process_job cfg t worker claimed >> ret tt) (λ _. ret tt)

unfoldable pub run_lane : Config → (worker : ℕ) → List Turn → Program Unit
unfolding try_claim try_process
run_lane cfg worker [] = ret tt
run_lane cfg worker (turn ∷ turns) =
    let rest = run_lane cfg worker turns in
    if turn.is_draining then ret tt else (do
      claimed ← try_claim worker turn.now
      try_process cfg worker turn.readings claimed
      rest)
