-- ===== src/Dashboard/DeadLetters.antt =====
-- DLQPage.jsx of packages/dashboard/src/components. `busy_id` is what it is when a handler has ended.
use distributed_job_queue.Base.{ℕ, Option, none, some, List}
use distributed_job_queue.Job.{dead}
use distributed_job_queue.Store.Program.{Program, ret, ◌>>=◌, ◌>>◌, for_each}
use distributed_job_queue.Routes.Response.{Response, JobBody, job_page}
use distributed_job_queue.App.{Endpoint, jobs_page, retry_by_id}
use distributed_job_queue.Dashboard.Api.{Answer, got, refused, Complaint, request}

pub record DeadLetters : Type 0 where
  pub jobs : List JobBody
  pub error : Option Complaint
  pub busy_id : Option ℕ

-- To a request for a page the server answers with a page.
abbrev pub loaded : DeadLetters → Answer → DeadLetters
loaded s (got (job_page jobs total page page_size)) = record s { jobs = jobs }
loaded s (got _) = s
loaded s (refused m) = record s { error = some m }

-- The `catch` of the button of one job.
abbrev pub noted : DeadLetters → Answer → DeadLetters
noted s (got body) = s
noted s (refused m) = record s { error = some m }

module _ (server : Endpoint → Program Response) where
  unfoldable pub load : DeadLetters → Program DeadLetters
  unfolding request
  load s = request server (jobs_page (some dead) none 1 50) >>= λ a. ret (loaded s a)

  -- `await api.retryJob(job.id).catch(() => {})`.
  unfoldable pub retry_ignored : JobBody → Program Unit
  unfolding request
  retry_ignored job = request server (retry_by_id job.id) >> ret tt

  unfoldable pub retry_all : DeadLetters → Program DeadLetters
  unfolding load retry_ignored
  retry_all s =
      for_each s.jobs tt (λ job _. retry_ignored job) >> load (record s { busy_id = none })

  -- The button of one job.
  unfoldable pub retry_one : ℕ → DeadLetters → Program DeadLetters
  unfolding request load
  retry_one id s =
      request server (retry_by_id id) >>= λ a. load (record (noted s a) { busy_id = none })
