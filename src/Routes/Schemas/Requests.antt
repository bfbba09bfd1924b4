-- ===== src/Routes/Schemas/Requests.antt =====
-- How the handlers of packages/server/src/routes/jobs.js and schedules.js read a body or a query that
-- has passed its schema.
use distributed_job_queue.Base.{ℕ, String, Bool, Option, none, some, if◌then◌else◌}
use mathlib.Core.Option
use text.Mathlib.Text.{◌==◌ as str_eq}
use distributed_job_queue.Payload.{Json, bool, num, str, obj, member}
use distributed_job_queue.Job.{
  Priority, high, normal, low, Status, queued, delayed, active, completed, failed, dead,
}
use distributed_job_queue.Queue.{Request}
use distributed_job_queue.Routes.Schedules.{ScheduleRequest}

-- A property as the handler takes it, `none` where its type is another one.
abbrev pub as_text : Json → Option String
as_text (str s) = some s
as_text _ = none

abbrev pub as_number : Json → Option ℕ
as_number (num n) = some n
as_number _ = none

abbrev pub as_flag : Json → Option Bool
as_flag (bool b) = some b
as_flag _ = none

abbrev pub as_object : Json → Option Json
as_object (obj fs) = some (obj fs)
as_object _ = none

abbrev pub priority_of : String → Option Priority
priority_of s =
    if str_eq "high" s
    then some high
    else if str_eq "normal" s
    then some normal
    else if str_eq "low" s
    then some low
    else none

abbrev pub status_of : String → Option Status
status_of s =
    if str_eq "queued" s
    then some queued
    else if str_eq "delayed" s
    then some delayed
    else if str_eq "active" s
    then some active
    else if str_eq "completed" s
    then some completed
    else if str_eq "failed" s
    then some failed
    else if str_eq "dead" s
    then some dead
    else none

infixl 5 ◌>>=◌
abbrev pub ◌>>=◌ : {A B : Type 0} → Option A → (A → Option B) → Option B
none >>= f = none
some a >>= f = f a

abbrev pub as_priority : Json → Option Priority
as_priority j = as_text j >>= priority_of

abbrev pub as_status : Json → Option Status
as_status j = as_text j >>= status_of

abbrev pub optional : {A : Type 0} → (Json → Option A) → Option Json → Option (Option A)
optional f none = some none
optional f (some j) = Option.map some (f j)

-- The body of POST /jobs as enqueueJob takes it apart; `key_id` numbers the idempotency keys.
unfoldable pub read_request : (key_id : String → ℕ) → Json → Option Request
read_request key_id body = do
  type ← member "type" body >>= as_text
  payload ← optional as_object (member "payload" body)
  priority ← optional as_priority (member "priority" body)
  delay ← optional as_number (member "delay" body)
  max_retries ← optional as_number (member "maxRetries" body)
  key ← optional as_text (member "idempotencyKey" body)
  some (record {
    type = type;
    payload = payload;
    priority = priority;
    delay = delay;
    max_retries = max_retries;
    idempotency_key = Option.map key_id key;
  })

unfoldable pub read_schedule : Json → Option ScheduleRequest
read_schedule body = do
  type ← member "type" body >>= as_text
  cron_expression ← member "cronExpression" body >>= as_text
  payload_template ← optional as_object (member "payloadTemplate" body)
  priority ← optional as_priority (member "priority" body)
  max_retries ← optional as_number (member "maxRetries" body)
  enabled ← optional as_flag (member "enabled" body)
  some (record {
    type = type;
    cron_expression = cron_expression;
    payload_template = payload_template;
    priority = priority;
    max_retries = max_retries;
    enabled = enabled;
  })

-- The query of GET /jobs.
pub record ListQuery : Type 0 where
  pub status : Option Status
  pub type : Option String
  pub page : ℕ
  pub page_size : ℕ

unfoldable pub read_query : Json → Option ListQuery
read_query query = do
  status ← optional as_status (member "status" query)
  type ← optional as_text (member "type" query)
  page ← member "page" query >>= as_number
  page_size ← member "pageSize" query >>= as_number
  some (record { status = status; type = type; page = page; page_size = page_size })
