-- ===== src/Lifecycle.antt =====
-- The life of a job through the components: enqueueJob, the promotion poller of the server and a lane
-- of a worker, one after another.
mod Tests
pub mod States
pub mod Steps
pub mod Attempts
pub mod Settling
pub mod Life
use distributed_job_queue.Base.{ℕ, List, [], ◌∷◌, false}
use distributed_job_queue.Store.Program.{Program, ret, ◌>>◌, ◌>>=◌}
use distributed_job_queue.Queue.Poller.{poll_delayed}
use distributed_job_queue.Worker.Process.{Config, Readings}
use distributed_job_queue.Worker.Lane.{Turn, run_lane}

-- A turn of the poller, and then one of the lane: what each reads.
pub record Round : Type 0 where
  pub polled_at : ℕ
  pub claimed_at : ℕ
  pub readings : Readings

abbrev pub turn_of : Round → Turn
turn_of r = record { is_draining = false; now = r.claimed_at; readings = r.readings }

unfoldable pub run_round : Config → (worker : ℕ) → Round → Program Unit
unfolding poll_delayed run_lane
run_round cfg worker r = poll_delayed r.polled_at >> run_lane cfg worker (turn_of r ∷ [])

unfoldable pub run_rounds : Config → (worker : ℕ) → List Round → Program Unit
unfolding run_round
run_rounds cfg worker [] = ret tt
run_rounds cfg worker (r ∷ rs) = run_round cfg worker r >> run_rounds cfg worker rs
