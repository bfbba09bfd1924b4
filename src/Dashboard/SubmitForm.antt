-- ===== src/Dashboard/SubmitForm.antt =====
-- SubmitJobForm of packages/dashboard/src/App.jsx.
pub mod Twice
use distributed_job_queue.Base.{ℕ, ◌+◌, String, Option, none, some}
use distributed_job_queue.Payload.{Json}
use distributed_job_queue.Job.{Priority}
use distributed_job_queue.Store.Program.{Program, ret, ◌>>=◌}
use distributed_job_queue.Queue.{Request}
use distributed_job_queue.Routes.Response.{Response, Body}
use distributed_job_queue.App.{Endpoint, post_jobs}
use distributed_job_queue.Dashboard.Api.{Answer, got, refused, Complaint, request}

-- The fields, with the payload as JSON.parse reads it: `none` if it is no JSON. An empty idempotency key
-- is `none`.
pub record Form : Type 0 where
  pub type : String
  pub payload : Option Json
  pub priority : Priority
  pub delay : ℕ
  pub max_retries : ℕ
  pub idempotency_key : Option ℕ

pub data Trouble : Type 0 where
  invalid_json : Trouble
  answered_with : Complaint → Trouble

-- `submissions` counts the calls of `onSubmitted`.
pub record Submission : Type 0 where
  pub result : Option Body
  pub error : Option Trouble
  pub submissions : ℕ

abbrev pub cleared : Submission → Submission
cleared s = record s { result = none; error = none }

unfoldable pub body_of : Form → Json → Request
body_of form payload = record {
  type = form.type;
  payload = some payload;
  priority = some form.priority;
  delay = some form.delay;
  max_retries = some form.max_retries;
  idempotency_key = form.idempotency_key;
}

abbrev pub after_answer : Submission → Answer → Submission
after_answer s (got body) = record s { result = some body; submissions = s.submissions + 1 }
after_answer s (refused m) = record s { error = some (answered_with m) }

-- The id and the time are those that the server draws.
unfoldable pub handle_submit :
    (server : Endpoint → Program Response) (id now : ℕ) → Form → Submission → Program Submission
unfolding body_of request
handle_submit server id now form s = elim form.payload [
  | none ↦ ret (record (cleared s) { error = some invalid_json })
  | some payload ↦ (do
    a ← request server (post_jobs id now (body_of form payload))
    ret (after_answer (cleared s) a))
]
