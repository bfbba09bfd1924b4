-- ===== src/Routes/Tests.antt =====
-- The operator cancels job 7, and asks for a retry of it when it is dead.
use distributed_job_queue.Base.{some, [], ◌∷◌, ◌≡◌, none, true}
use distributed_job_queue.Job.{Row, dead, Definition, high}
use distributed_job_queue.Store.View.{View, find_definition}
use distributed_job_queue.Store.Server.{Agrees, run, documented, documented-IsReliable}
use distributed_job_queue.Routes.Jobs.{delete_job, post_retry}
use distributed_job_queue.Routes.Jobs.Cancel
use distributed_job_queue.Routes.Jobs.Cancel.{delete_job-answered}
use distributed_job_queue.Routes.Jobs.Retry
use distributed_job_queue.Routes.Jobs.Retry.{post_retry-answered}
use distributed_job_queue.Samples.{empty_view, queued_view, row_7}
use distributed_job_queue.Payload.{obj, end}
use distributed_job_queue.Store.Program.{ok}
use distributed_job_queue.Routes.Response.{nothing}
use distributed_job_queue.Routes.Schedules.{delete_schedule}
use distributed_job_queue.Routes.Schedules.Delete.{delete_schedule-answered}

abbrev dead_row : Row
dead_row = record row_7 { status = dead; attempt = 3 }

abbrev dead_view : View
dead_view = record empty_view { jobs = dead_row ∷ [] }

delete_job-answered_example :
    Agrees documented documented-IsReliable
      (run documented (delete_job 7) queued_view)
      (Cancel.answered 7 queued_view (some row_7))
delete_job-answered_example = delete_job-answered documented documented-IsReliable 7 queued_view

post_retry-answered_example :
    Agrees documented documented-IsReliable
      (run documented (post_retry 7) dead_view)
      (Retry.answered 7 dead_view (some dead_row))
post_retry-answered_example = post_retry-answered documented documented-IsReliable 7 dead_view

abbrev hourly : Definition
hourly = record {
  id = 3;
  type = "noop";
  cron_expression = "0 * * * *";
  payload_template = obj end;
  priority = high;
  max_retries = 1;
  enabled = true;
  last_run_at = none;
}

abbrev one_schedule : View
one_schedule = record empty_view { definitions = hourly ∷ [] }

delete_schedule-answered_run :
    let ended = run documented (delete_schedule 3) one_schedule in
    (ended.0 ≡ ok (record { code = 204; body = nothing }))
    × (find_definition 3 ended.1.definitions ≡ none)
delete_schedule-answered_run =
    delete_schedule-answered documented documented-IsReliable 3 3 one_schedule
