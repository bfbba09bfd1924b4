-- ===== src/Backoff.antt =====
-- packages/shared/src/backoff.js. `Math.random()` is an argument, in units of 2^-53: a draw u below
-- 2^53 stands for u / 2^53. Delays are whole milliseconds; `Math.pow` is exact, and where it would
-- be Infinity the cap is smaller than the exact power too.
mod Tests
pub mod Bounds
use distributed_job_queue.Base.{ℕ, ◌*◌, ◌/◌, ◌^◌, min, Bool, true, false, not, if◌then◌else◌}
use distributed_job_queue.Job.{negative_attempt}
use distributed_job_queue.Store.Program.{Result, ok, err}

-- `negsuc n` is -(n + 1).
pub data ℤ : Type 0 where
  pos : ℕ → ℤ
  negsuc : ℕ → ℤ

unfoldable pub compute_backoff_ms : (random : ℕ) → ℤ → (base_ms max_delay_ms : ℕ) → Bool → Result ℕ
compute_backoff_ms random (negsuc n) base_ms max_delay_ms jitter = err negative_attempt
compute_backoff_ms random (pos attempt) base_ms max_delay_ms jitter =
    let raw = base_ms * 2 ^ attempt in
    let capped = min raw max_delay_ms in
    if not jitter then ok capped else ok (random * capped / 2 ^ 53)

unfoldable pub compute_backoff_ceiling_ms : ℤ → (base_ms max_delay_ms : ℕ) → Result ℕ
compute_backoff_ceiling_ms (negsuc n) base_ms max_delay_ms = err negative_attempt
compute_backoff_ceiling_ms (pos attempt) base_ms max_delay_ms =
    ok (min (base_ms * 2 ^ attempt) max_delay_ms)
