-- ===== src/Job.antt =====
-- The data that every process shares: packages/db/schema.sql as the code uses it, the envelope of
-- packages/server/src/lib/queue.js, the messages of the audit log and the exceptions.
-- Job, worker and definition ids and idempotency keys are only compared for equality: numbers.

use distributed_job_queue.Payload.{Json}
use distributed_job_queue.Base.{ℕ, String, Option, Bool, true, false}

pub data Priority : Type 0 where
  high normal low : Priority

pub data Status : Type 0 where
  queued delayed active completed failed dead : Status

-- The exceptions that reach a caller. `service` is a command that Redis or Postgres, or the
-- connection to it, refuses; `unique_violation` and `invalid_number` are refusals that the
-- statement itself causes.
pub data Error : Type 0 where
  service : ℕ → Error
  unique_violation invalid_number : Error
  invalid_state : (id : ℕ) (status : Status) → Error
  no_handler : Option String → Error
  payload_to_required provider_failure : Error
  timed_out : (ms : ℕ) → Error
  negative_attempt type_error : Error
  unknown_priority : Error

-- One constructor for each text that the code writes, with the values that it puts in.
pub data Message : Type 0 where
  job_created requeued_by_operator cancelled_by_operator promoted_to_queue promoted : Message
  claimed_by : (worker : ℕ) → Message
  completed_successfully : Message
  error_text : Error → Message
  attempt_failed : (next : ℕ) → Error → (delay : ℕ) → Message
  retry_scheduled : (next max delay : ℕ) → Message
  exhausted : Option ℕ → Error → Message
  moved_to_dlq moved_to_dlq_after_crash : Message
  reaped : (worker age : ℕ) → Message
  reaped_retry : (worker age next max delay : ℕ) → Message
  reaped_requeued : (worker age next : ℕ) → Message
  reaped_exhausted : (worker age : ℕ) → Message
  enqueued_by_scheduler : (definition : ℕ) (cron : String) → Message
  recurring_fired : Message

-- A row of `jobs`. The column `updated_at`, which a trigger refreshes, is left out.
pub record Row : Type 0 where
  pub id : ℕ
  pub type : String
  pub payload : Json
  pub priority : Priority
  pub status : Status
  pub attempt : ℕ
  pub max_retries : ℕ
  pub idempotency_key : Option ℕ
  pub scheduled_for : Option ℕ
  pub created_at : ℕ
  pub completed_at : Option ℕ
  pub error : Option Message
  pub worker_id : Option ℕ

-- The JSON under a job's id in the hash `jobs:data`.
pub record Envelope : Type 0 where
  pub id : ℕ
  pub type : String
  pub payload : Json
  pub priority : Priority
  pub attempt : ℕ
  pub max_retries : ℕ

-- A row of `job_events`, and an event on the channel `jobs:events` (without its time stamp).
pub record LogEntry : Type 0 where
  pub job_id : ℕ
  pub status : Status
  pub message : Message

-- A row of `scheduled_jobs`.
pub record Definition : Type 0 where
  pub id : ℕ
  pub type : String
  pub cron_expression : String
  pub payload_template : Json
  pub priority : Priority
  pub max_retries : ℕ
  pub enabled : Bool
  pub last_run_at : Option ℕ

abbrev pub status_eq : Status → Status → Bool
status_eq queued queued = true
status_eq delayed delayed = true
status_eq active active = true
status_eq completed completed = true
status_eq failed failed = true
status_eq dead dead = true
status_eq _ _ = false

abbrev pub priority_eq : Priority → Priority → Bool
priority_eq high high = true
priority_eq normal normal = true
priority_eq low low = true
priority_eq _ _ = false
