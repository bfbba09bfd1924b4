-- ===== src/Worker/Process/Stuck.antt =====
-- processJob of packages/worker/src/process.js for a job without data, which claimNextJob hands over
-- with the envelope `{ id }`.
use distributed_job_queue.Base.{ℕ, refl, ◌∙◌, ap, none}
use distributed_job_queue.Job.{Priority, Error, invalid_number, no_handler}
use distributed_job_queue.Store.Program.{err, Program}
use distributed_job_queue.Store.Server.{Server, IsReliable, Agrees, run, run-eq}
use distributed_job_queue.Store.Runs.{caught, play-try_catch}
use distributed_job_queue.Worker.Claim.{Claimed}
use distributed_job_queue.Worker.Process.{
  Config, Readings, Outcome, process_job, attempt_job, handle_failure, run_handler, give_up,
}
use distributed_job_queue.Worker.Process.Final.{claimed_view, play-attempt_job}

abbrev pub bare : (id : ℕ) → Priority → Claimed
bare id p = record { id = id; priority = p; envelope = none }

-- Against reliable services, processJob of a job without data throws what Postgres refuses the
-- attempt NaN with, and all that it has done is to mark the job 'active': every list, the delayed
-- set and the heartbeats are as before, so the job stays in the worker's list.
pub process_job-stuck :
    (srv : Server) (h : IsReliable srv) (cfg : Config) (t : Readings) (worker id : ℕ) (p : Priority)
    (w : srv.World)
    → Agrees srv h
        (run srv (process_job cfg t worker (bare id p)) w)
        (err invalid_number, claimed_view worker id (srv.view w))
unfolding process_job run_handler handle_failure give_up
process_job-stuck srv h cfg t worker id p w =
    let v = srv.view w in
    let on_error : Error → Program Outcome = handle_failure cfg t worker id none in
    run-eq srv h (process_job cfg t worker (bare id p)) w (
      play-try_catch (attempt_job cfg t worker (bare id p)) on_error v
      ∙ ap (caught on_error)
          (play-attempt_job cfg t worker (bare id p) v (err (no_handler none)) refl))
