-- ===== src/Routes/Jobs.antt =====
-- packages/server/src/routes/jobs.js.
pub mod Cancel
pub mod Retry
use distributed_job_queue.Base.{ℕ, String, Option, none, some, List, map, if◌then◌else◌}
use distributed_job_queue.Job.{Status, Error, Row, invalid_state}
use distributed_job_queue.Store.Program.{Program, ret, throw, ◌>>=◌, try_catch}
use distributed_job_queue.Queue.{
  Config, Request, enqueue_job, get_job_by_id, get_job_events, list_jobs, retry_job, cancel_job,
}
use distributed_job_queue.Routes.Response.{
  Response, accepted, job_body, job_with_events, job_page, not_found, invalid_state_error,
  serialize_job,
}

unfoldable pub post_job : Config → (id now : ℕ) → Request → Program Response
unfolding enqueue_job
post_job cfg id now req = do
  r ← enqueue_job cfg id now req
  ret (record {
    code = if r.deduped then 200 else 201;
    body = accepted r.job.id r.job.status r.job.priority r.job.created_at r.deduped;
  })

unfoldable pub get_job : ℕ → Program Response
unfolding get_job_by_id get_job_events serialize_job
get_job id = do
  found ← get_job_by_id id
  elim found [
    | none ↦ ret (record { code = 404; body = not_found })
    | some job ↦ (do
      events ← get_job_events job.id
      ret (record { code = 200; body = job_with_events (serialize_job job) events }))
  ]

unfoldable pub get_jobs : Option Status → Option String → (page page_size : ℕ) → Program Response
unfolding list_jobs serialize_job
get_jobs status type page page_size = do
  r ← list_jobs status type page page_size
  ret (record { code = 200; body = job_page (map serialize_job r.jobs) r.total r.page r.page_size })

unfoldable pub send_job : Option Row → Program Response
unfolding serialize_job
send_job none = ret (record { code = 404; body = not_found })
send_job (some job) = ret (record { code = 200; body = job_body (serialize_job job) })

-- The `catch` of the last two handlers.
unfoldable pub on_invalid_state : Error → Program Response
on_invalid_state (invalid_state id status) =
    ret (record { code = 409; body = invalid_state_error (invalid_state id status) })
on_invalid_state e = throw e

unfoldable pub post_retry : ℕ → Program Response
unfolding retry_job send_job on_invalid_state
post_retry id = try_catch (retry_job id >>= send_job) on_invalid_state

unfoldable pub delete_job : ℕ → Program Response
unfolding cancel_job send_job on_invalid_state
delete_job id = try_catch (cancel_job id >>= send_job) on_invalid_state
