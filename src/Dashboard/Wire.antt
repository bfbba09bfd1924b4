-- ===== src/Dashboard/Wire.antt =====
-- What packages/dashboard/src/api.js puts on the wire, and the server of packages/server/src/app.js with
-- Fastify's parser of bodies before the hooks. The parser is a parameter: the error with which it
-- refuses a request, which is no error of validation, or `none`.
pub mod Refused
use distributed_job_queue.Base.{ℕ, ◌≡◌, Bool, true, false, Option, none, some}
use distributed_job_queue.Job.{Error}
use distributed_job_queue.Store.Program.{Program, ret}
use distributed_job_queue.Routes.Response.{Response}
use distributed_job_queue.App.{
  Config, Endpoint, post_jobs, job_by_id, jobs_page, retry_by_id, delete_by_id, post_schedules,
  schedules, patch_by_id, delete_schedule_by_id, queues_stats, on_error, exception,
}
use distributed_job_queue.Dashboard.Served.{admitted}

pub data Method : Type 0 where
  get post patch delete : Method

-- Every call has the header `Content-Type: application/json`.
pub record Sent : Type 0 where
  pub method : Method
  pub is_json : Bool
  pub has_body : Bool

abbrev json : Method → Bool → Sent
json m b = record { method = m; is_json = true; has_body = b }

unfoldable pub wire : Endpoint → Sent
wire (post_jobs id now req) = json post true
wire (job_by_id id) = json get false
wire (jobs_page status type page page_size) = json get false
wire (retry_by_id id) = json post false
wire (delete_by_id id) = json delete false
wire (post_schedules id req) = json post true
wire schedules = json get false
wire (patch_by_id id body) = json patch true
wire (delete_schedule_by_id id) = json delete false
wire (queues_stats now) = json get false

abbrev pub Parser : Type 0
Parser = Sent → Option Error

-- What Fastify documents (FST_ERR_CTP_EMPTY_JSON_BODY): the body of a POST whose content type is
-- JSON must not be empty.
pub record RefusesEmpty (parser : Parser) : Type 0 where
  pub empty_json :
      (error : Error) × (parser (record { method = post; is_json = true; has_body = false })
        ≡ some error)

-- A request for the handler, or for the error handler.
abbrev pub after_parser : Config → Endpoint → Option Error → Program Response
after_parser cfg e none = admitted cfg e
after_parser cfg e (some error) = ret (on_error (exception error))

unfoldable pub serve : Parser → Config → Endpoint → Program Response
unfolding wire
serve parser cfg e = after_parser cfg e (parser (wire e))
