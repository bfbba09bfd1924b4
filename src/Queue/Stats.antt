-- ===== src/Queue/Stats.antt =====
-- getQueueStats of packages/server/src/lib/queue.js. `now` is Postgres's clock; the failure rate is
-- in units of 1/10000, which is what toFixed(4) keeps, and the floating-point division with toFixed(4) is
-- a parameter. The four commands of its Promise.all are sent one after the other.
mod Tests
pub mod Counts
use distributed_job_queue.Base.{
  ℕ, zero, suc, ◌+◌, ◌*◌, ◌/◌, Option, none, some, List, [], ◌∷◌, if◌then◌else◌,
}
use distributed_job_queue.Job.{Priority, high, normal, low, Status, dead, status_eq}
use distributed_job_queue.Store.Command.{
  queue, llen, zcard, count_by_status, count_completed_within, count_failures_within, Outcomes,
}
use distributed_job_queue.Store.Program.{Program, ret, await, ◌>>=◌}

pub record Stats : Type 0 where
  pub high : ℕ
  pub normal : ℕ
  pub low : ℕ
  pub delayed : ℕ
  pub by_status : List (Status × ℕ)
  pub throughput_per_min : ℕ
  pub failure_rate_last_hour : ℕ
  pub dlq_count : ℕ

-- `byStatus[status] || 0`.
abbrev pub count_of : Status → List (Status × ℕ) → ℕ
count_of s [] = 0
count_of s ((t, n) ∷ rows) = let rest = count_of s rows in if status_eq t s then n else rest

-- `Number((total > 0 ? failed / total : 0).toFixed(4))`.
abbrev pub Quotient : Type 0
Quotient = (failed total : ℕ) → ℕ

abbrev pub rate_of : Quotient → (failed total : ℕ) → ℕ
rate_of quotient failed zero = 0
rate_of quotient failed (suc n) = quotient failed (suc n)

unfoldable pub get_queue_stats : Quotient → (now : ℕ) → Program Stats
get_queue_stats quotient now = do
  in_high ← await (llen (queue high))
  in_normal ← await (llen (queue normal))
  in_low ← await (llen (queue low))
  waiting ← await zcard
  by_status ← await count_by_status
  throughput ← await (count_completed_within now 60000)
  outcomes ← await (count_failures_within now 3600000)
  ret (record {
    high = in_high;
    normal = in_normal;
    low = in_low;
    delayed = waiting;
    by_status = by_status;
    throughput_per_min = throughput;
    failure_rate_last_hour = rate_of quotient outcomes.failed outcomes.total;
    dlq_count = count_of dead by_status;
  })
