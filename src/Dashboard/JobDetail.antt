-- ===== src/Dashboard/JobDetail.antt =====
-- JobDetail.jsx of packages/dashboard/src/components. `busy` is what it is when a handler has ended.
use distributed_job_queue.Base.{ℕ, ◌+◌, Bool, false, ◌||◌, Option, some, List, if◌then◌else◌}
use distributed_job_queue.Job.{dead, failed, queued, delayed, LogEntry, status_eq}
use distributed_job_queue.Store.Program.{Program, ret, ◌>>=◌}
use distributed_job_queue.Routes.Response.{Response, JobBody, job_with_events}
use distributed_job_queue.App.{Endpoint, job_by_id, retry_by_id, delete_by_id}
use distributed_job_queue.Dashboard.Api.{Answer, got, refused, Complaint, request}

-- `changes` counts the calls of `onChanged`.
pub record Detail : Type 0 where
  pub job : Option (JobBody × List LogEntry)
  pub error : Option Complaint
  pub busy : Bool
  pub changes : ℕ

-- To a request for a job the server answers with the job and its events.
abbrev pub set_job : Detail → Answer → Detail
set_job s (got (job_with_events job events)) = record s { job = some (job, events) }
set_job s (got _) = s
set_job s (refused m) = record s { error = some m }

-- What the effect makes of the answer, if it still is the effect of the job shown.
abbrev pub job_arrives : (cancelled : Bool) → Detail → Answer → Detail
job_arrives cancelled s a = if cancelled then s else set_job s a

-- The conditions of the two buttons.
abbrev pub can_retry : JobBody → Bool
can_retry job = status_eq job.status dead || status_eq job.status failed

abbrev pub can_cancel : JobBody → Bool
can_cancel job = status_eq job.status queued || status_eq job.status delayed

abbrev pub after_refresh : Detail → Answer → Detail
after_refresh s (refused m) = record s { error = some m; busy = false }
after_refresh s (got body) =
    let shown = set_job s (got body) in record shown { busy = false; changes = s.changes + 1 }

module _ (server : Endpoint → Program Response) (id : ℕ) where
  -- The rest of the `try` once the action is answered.
  abbrev pub refresh : Detail → Answer → Program Detail
  refresh s (refused m) = ret (record s { error = some m; busy = false })
  refresh s (got body) = request server (job_by_id id) >>= λ a. ret (after_refresh s a)

  unfoldable pub handle_retry : Detail → Program Detail
  unfolding request
  handle_retry s = request server (retry_by_id id) >>= refresh s

  unfoldable pub handle_cancel : Detail → Program Detail
  unfolding request
  handle_cancel s = request server (delete_by_id id) >>= refresh s
