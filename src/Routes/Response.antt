-- ===== src/Routes/Response.antt =====
-- What the handlers of packages/server/src/routes send. The columns `updated_at`, and those of
-- schedules with a time of creation, are left out.
use distributed_job_queue.Base.{ℕ, String, Bool, Option, List}
use distributed_job_queue.Payload.{Json}
use distributed_job_queue.Queue.Stats.{Stats}
use distributed_job_queue.Job.{Priority, Status, Message, Error, Row, LogEntry, Definition}

pub record JobBody : Type 0 where
  pub id : ℕ
  pub type : String
  pub payload : Json
  pub priority : Priority
  pub status : Status
  pub attempt : ℕ
  pub max_retries : ℕ
  pub idempotency_key : Option ℕ
  pub scheduled_for : Option ℕ
  pub created_at : ℕ
  pub completed_at : Option ℕ
  pub error : Option Message
  pub worker_id : Option ℕ

unfoldable pub serialize_job : Row → JobBody
serialize_job job = record {
  id = job.id;
  type = job.type;
  payload = job.payload;
  priority = job.priority;
  status = job.status;
  attempt = job.attempt;
  max_retries = job.max_retries;
  idempotency_key = job.idempotency_key;
  scheduled_for = job.scheduled_for;
  created_at = job.created_at;
  completed_at = job.completed_at;
  error = job.error;
  worker_id = job.worker_id;
}

pub record ScheduleBody : Type 0 where
  pub id : ℕ
  pub type : String
  pub cron_expression : String
  pub payload_template : Json
  pub priority : Priority
  pub max_retries : ℕ
  pub enabled : Bool
  pub last_run_at : Option ℕ

unfoldable pub serialize : Definition → ScheduleBody
serialize row = record {
  id = row.id;
  type = row.type;
  cron_expression = row.cron_expression;
  payload_template = row.payload_template;
  priority = row.priority;
  max_retries = row.max_retries;
  enabled = row.enabled;
  last_run_at = row.last_run_at;
}

-- `invalid_state_error` has the message of the exception.
pub data Body : Type 0 where
  accepted :
      (id : ℕ) (status : Status) (priority : Priority) (created_at : ℕ) (deduped : Bool) → Body
  job_body : JobBody → Body
  job_with_events : JobBody → List LogEntry → Body
  job_page : (jobs : List JobBody) (total page page_size : ℕ) → Body
  schedule_body : ScheduleBody → Body
  schedule_list : List ScheduleBody → Body
  not_found validation_error nothing unauthorized internal_error : Body
  invalid_state_error : Error → Body
  rate_limited : (capacity : ℕ) → Body
  health_body : (redis postgres : Bool) → Body
  stats_body : Stats → Body
  metrics_text : (samples : List (String × ℕ)) → Body

pub record Response : Type 0 where
  pub code : ℕ
  pub body : Body
