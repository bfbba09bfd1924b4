-- ===== src/Lifecycle/Tests.antt =====
-- Job 7 is posted, fails once, and is sent at its second attempt.
use distributed_job_queue.Base.{ℕ, ◌^◌, ◌≡◌, refl, [], ◌∷◌, List, arith}
use distributed_job_queue.Store.Program.{ok, ◌>>=◌}
use distributed_job_queue.Store.Server.{run, documented, documented-IsReliable}
use distributed_job_queue.Queue
use distributed_job_queue.Queue.{enqueue_job, new_row}
use distributed_job_queue.Worker.Process
use distributed_job_queue.Worker.Process.{Readings}
use distributed_job_queue.Lifecycle.{Round, run_rounds}
use distributed_job_queue.Lifecycle.States.{IsSettled}
use distributed_job_queue.Lifecycle.Life.{enqueue_job-settles}
use distributed_job_queue.Samples.{request_7, empty_view}

abbrev queue_config : Queue.Config
queue_config = record { max_retries_default = 5; idempotency_ttl_seconds = 86400 }

abbrev config : Process.Config
config = record { default_timeout_ms = 30000; backoff_base_ms = 2000; backoff_max_ms = 300000 }

abbrev readings_at : ℕ → Readings
readings_at now = record {
  completed_at = now;
  db_now = now;
  now = now;
  random = 2 ^ 52;
  latency = 50;
}

abbrev round_at : ℕ → Round
round_at now = record { polled_at = now; claimed_at = now; readings = readings_at now }

abbrev three_rounds : List Round
three_rounds = round_at 1000 ∷ round_at 400000 ∷ round_at 800000 ∷ []

enqueue_job-settles_example :
    let ended =
      run documented
        (enqueue_job queue_config 7 100 request_7 >>= λ _. run_rounds config 1 three_rounds)
        empty_view in
    (ended.0 ≡ ok tt) × IsSettled 7 2 ended.1
unfolding new_row
enqueue_job-settles_example =
    enqueue_job-settles queue_config 7 100 request_7 documented documented-IsReliable config 1
      three_rounds empty_view (λ k. refl) refl (λ key e. refl) refl
      (omega arith, omega arith, (omega arith, omega arith, (omega arith, omega arith, tt)))
      (omega arith)
