-- ===== src/Backoff/Tests.antt =====
-- Delays at concrete attempts.
use distributed_job_queue.Base.{◌≡◌, refl, ◌<◌, ◌≤◌, true, false, arith, ◌^◌, ℕ}
use distributed_job_queue.Job.{negative_attempt}
use distributed_job_queue.Store.Program.{ok, err}
use distributed_job_queue.Backoff.{pos, negsuc, compute_backoff_ms, compute_backoff_ceiling_ms}
use distributed_job_queue.Backoff.Bounds.{
  compute_backoff_ms-lt-ceiling, compute_backoff_ceiling_ms-suc,
}

negative_attempt_fails : compute_backoff_ms 0 (negsuc 0) 2000 300000 true ≡ err negative_attempt
unfolding compute_backoff_ms
negative_attempt_fails = refl

compute_backoff_ms-lt-ceiling_example :
    (d c : ℕ) × (compute_backoff_ms (2 ^ 52) (pos 3) 2000 300000 true ≡ ok d)
    × (compute_backoff_ms (2 ^ 52) (pos 3) 2000 300000 false ≡ ok c)
    × (compute_backoff_ceiling_ms (pos 3) 2000 300000 ≡ ok c)
    × (d < c)
    × (c ≤ 300000)
compute_backoff_ms-lt-ceiling_example =
    compute_backoff_ms-lt-ceiling (2 ^ 52) 3 2000 300000 (omega arith) (omega arith) (omega arith)

compute_backoff_ceiling_ms-suc_run : compute_backoff_ceiling_ms (pos 8) 2000 300000 ≡ ok 300000
unfolding compute_backoff_ceiling_ms
compute_backoff_ceiling_ms-suc_run = compute_backoff_ceiling_ms-suc 7 2000 300000 256000 refl
