-- ===== src/Worker/Process/Endings.antt =====
-- What packages/worker/src/process.js leaves of a job that a worker has had.
use distributed_job_queue.Base.{ℕ, ◌+◌, ◌≡◌, some, none, arith, ==_refl, count}
use distributed_job_queue.Job.{Status, completed, delayed, dead, Row, Envelope}
use distributed_job_queue.Store.Command.{processing}
use distributed_job_queue.Store.View.{View, schedule, unscheduled, find_row}
use distributed_job_queue.Custody.Lists.{count-without}
use distributed_job_queue.Worker.Process.Final.{released}

-- The worker is rid of the job: it is not in its list, and has no heartbeat.
pub record IsReleased (worker id : ℕ) (u : View) : Type 0 where
  pub gone : count id (u.lists (processing worker)) ≡ 0
  pub silent : u.beats id ≡ none

-- The job's row has the status and the number of attempts.
pub record HasRow (id : ℕ) (status : Status) (attempt : ℕ) (u : View) : Type 0 where
  pub row : Row
  pub found : find_row id u.jobs ≡ some row
  pub has_status : row.status ≡ status
  pub has_attempt : row.attempt ≡ attempt

pub record IsRetried (worker id delay now : ℕ) (e : Envelope) (v u : View) : Type 0 where
  pub released : IsReleased worker id u
  pub described : u.envelopes id ≡ some (record e { attempt = e.attempt + 1 })
  pub waiting : u.delayed_set ≡ schedule (now + delay) id (unscheduled id v.delayed_set)
  pub stored : HasRow id delayed (e.attempt + 1) u

pub record IsBuried (worker id : ℕ) (e : Envelope) (v u : View) : Type 0 where
  pub released : IsReleased worker id u
  pub described : u.envelopes id ≡ none
  pub waiting : u.delayed_set ≡ v.delayed_set
  pub stored : HasRow id dead (e.attempt + 1) u

pub record IsCompleted (worker id attempt : ℕ) (v u : View) : Type 0 where
  pub released : IsReleased worker id u
  pub described : u.envelopes id ≡ none
  pub waiting : u.delayed_set ≡ v.delayed_set
  pub stored : HasRow id completed attempt u

pub released-IsReleased : (worker id : ℕ) (v : View) → IsReleased worker id (released worker id v)
released-IsReleased worker id v = record {
  gone =
      ground (arith, count-without id id (v.lists (processing worker)), ==_refl worker, ==_refl id);
  silent = ground (arith, ==_refl id);
}
