-- ===== src/Worker/Lane/Draining.antt =====
-- FR-7.1: a lane of packages/worker/src/index.js claims nothing once the worker is draining.
use distributed_job_queue.Base.{◌≡◌, ap, true, ℕ, List, [], ◌∷◌, ◌++◌, if◌then◌else◌}
use distributed_job_queue.Store.Program.{Program, ret, ◌>>=◌, ◌>>◌}
use distributed_job_queue.Worker.Process.{Config}
use distributed_job_queue.Worker.Lane.{Turn, run_lane, try_claim, try_process}

-- Whatever turns come before, a lane that finds at some turn that the worker is draining is done: it
-- sends exactly the commands of the turns before, those that finish its job included, and none of any
-- later turn.
pub run_lane-drains :
    (cfg : Config) (worker : ℕ) (before : List Turn) (turn : Turn) (later : List Turn)
    → turn.is_draining ≡ true
    → run_lane cfg worker (before ++ turn ∷ later) ≡ run_lane cfg worker before
unfolding run_lane
run_lane-drains cfg worker [] turn later drains =
    ap (λ b. if b then ret tt else going_on turn (run_lane cfg worker later)) drains
  where
    going_on : Turn → Program Unit → Program Unit
    going_on t rest = try_claim worker t.now >>= λ c. try_process cfg worker t.readings c >> rest
run_lane-drains cfg worker (t ∷ ts) turn later drains =
    ap
      (λ rest.
        if t.is_draining
        then ret tt
        else (try_claim worker t.now >>= λ c. try_process cfg worker t.readings c >> rest))
      (run_lane-drains cfg worker ts turn later drains)
