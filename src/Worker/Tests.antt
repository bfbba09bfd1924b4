-- ===== src/Worker/Tests.antt =====
-- A lane whose services refuse everything, and a drain that gives up on a job.
use distributed_job_queue.Base.{ℕ, ◌≡◌, refl, true, false, [], ◌∷◌, arith}
use distributed_job_queue.Job.{service}
use distributed_job_queue.Store.Program.{ok, err}
use distributed_job_queue.Store.View.{View}
use distributed_job_queue.Store.Server.{Server, run}
use distributed_job_queue.Worker.Process.{Config}
use distributed_job_queue.Worker.Lane.{Turn, run_lane}
use distributed_job_queue.Worker.Lane.Survival.{run_lane-survives}
use distributed_job_queue.Worker.Lane.Draining.{run_lane-drains}
use distributed_job_queue.Worker.Shutdown.{Poll, ended, grace_elapsed, drain}
use distributed_job_queue.Worker.Shutdown.Deadline.{EndsAt, drain-ends}
use distributed_job_queue.Samples.{queued_view}

abbrev broken : Server
broken = record { World = View; exec = λ c v. (err (service 1), v); view = λ v. v }

abbrev config : Config
config = record { default_timeout_ms = 30000; backoff_base_ms = 2000; backoff_max_ms = 300000 }

abbrev turn : Turn
turn = record {
  is_draining = false;
  now = 100;
  readings = record { completed_at = 300; db_now = 200; now = 200; random = 0; latency = 50 };
}

run_lane-survives_example :
    (run broken (run_lane config 1 (turn ∷ turn ∷ [])) queued_view).0 ≡ ok tt
run_lane-survives_example = run_lane-survives broken config 1 (turn ∷ turn ∷ []) queued_view

abbrev busy : ℕ → Poll
busy now = record { in_flight = 1; now = now }

gives_up : drain false 400 0 (busy 0 ∷ busy 200 ∷ busy 400 ∷ []) ≡ (true, grace_elapsed 1)
unfolding drain
gives_up = refl

drain-ends_example :
    (q : Poll) × EndsAt 400 (busy 0 ∷ busy 200 ∷ busy 400 ∷ []) q
    × (drain false 400 0 (busy 0 ∷ busy 200 ∷ busy 400 ∷ []) ≡ (true, ended q.in_flight))
drain-ends_example =
    drain-ends 400 0 (busy 0 ∷ busy 200 ∷ busy 400 ∷ [])
      (omega arith, (omega arith, (omega arith, tt))) (omega arith)

abbrev last_turn : Turn
last_turn = record turn { is_draining = true }

run_lane-drains_run :
    run_lane config 1 (turn ∷ last_turn ∷ turn ∷ []) ≡ run_lane config 1 (turn ∷ [])
run_lane-drains_run = run_lane-drains config 1 (turn ∷ []) last_turn (turn ∷ []) refl
