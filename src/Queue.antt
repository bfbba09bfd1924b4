-- ===== src/Queue.antt =====
-- packages/server/src/lib/queue.js. The readings of the clock and the id that uuidv4() draws are
-- arguments.
mod Tests
pub mod Listing
pub use Listing.{Page}
unfoldable pub use Listing.{list_jobs}
pub mod Stored
pub mod Enqueue
pub mod Dedupe
pub mod Expired
pub mod Promotion
pub mod Poller
pub mod Stats
use distributed_job_queue.Base.{
  ℕ, zero, suc, ◌+◌, ◌-◌, ◌*◌, max, String, Bool, true, false, Option, none, some, List, [], ◌∷◌,
  ◌++◌, if◌then◌else◌,
}
use mathlib.Core.Option.{get_or}
use distributed_job_queue.Payload.{Json, obj, end}
use distributed_job_queue.Job.{
  Priority, normal, Status, queued, delayed, failed, dead, Row, Envelope, LogEntry, Message,
  job_created, requeued_by_operator, cancelled_by_operator, promoted_to_queue, promoted,
  invalid_state, type_error,
}
use distributed_job_queue.Store.Command.{
  queue, job_data, idempotency, set_status, set_error, set_worker, Condition, status_is, type_is,
  get, set_ex, hset, hget, hdel, zadd, zrem, zrangebyscore, lpush, lrem, publish, insert_job,
  insert_event, select_job, select_events, update_job, select_page, count_jobs,
}
use distributed_job_queue.Store.Program.{Program, ret, throw, await, ◌>>=◌, ◌>>◌, for_each}

pub record Config : Type 0 where
  pub max_retries_default : ℕ
  pub idempotency_ttl_seconds : ℕ

-- The body of POST /jobs; an absent field is `none`.
pub record Request : Type 0 where
  pub type : String
  pub payload : Option Json
  pub priority : Option Priority
  pub delay : Option ℕ
  pub max_retries : Option ℕ
  pub idempotency_key : Option ℕ

pub record Enqueued : Type 0 where
  pub job : Row
  pub deduped : Bool

unfoldable pub to_envelope : Row → Envelope
to_envelope job = record {
  id = job.id;
  type = job.type;
  payload = job.payload;
  priority = job.priority;
  attempt = job.attempt;
  max_retries = job.max_retries;
}

unfoldable pub log_event : ℕ → Status → Message → Program Unit
log_event job_id status message =
    await (insert_event (record { job_id = job_id; status = status; message = message }))

unfoldable pub publish_event : ℕ → Status → Message → Program Unit
publish_event job_id status message =
    await (publish (record { job_id = job_id; status = status; message = message }))

unfoldable pub get_job_by_id : ℕ → Program (Option Row)
get_job_by_id id = await (select_job id)

unfoldable pub get_job_events : ℕ → Program (List LogEntry)
get_job_events id = await (select_events id)

-- The job that the idempotency key stands for, if Redis and Postgres both still know it.
abbrev pub known_job : Option ℕ → Program (Option Row)
known_job none = ret none
known_job (some id) = await (select_job id)

unfoldable pub find_duplicate : Option ℕ → Program (Option Row)
find_duplicate none = ret none
find_duplicate (some key) = await (get (idempotency key)) >>= known_job

-- Redis drops the key after `ttl` seconds: Queue/Dedupe and Queue/Expired say what a request then meets.
unfoldable pub remember_key : Option ℕ → (id ttl : ℕ) → Program Unit
remember_key none id ttl = ret tt
remember_key (some key) id ttl = await (set_ex (idempotency key) id ttl)

-- `delay > 0 ? new Date(now.getTime() + delay) : null`, within the range of Date: 8.64e15 ms.
unfoldable pub schedule_time : (now delay : ℕ) → Option ℕ
schedule_time now zero = none
schedule_time now (suc d) = some (now + suc d)

abbrev pub initial_status : Option ℕ → Status
initial_status none = queued
initial_status (some t) = delayed

unfoldable pub place : Option ℕ → Priority → ℕ → Program Unit
place none priority id = await (lpush (queue priority) id) >> ret tt
place (some t) priority id = await (zadd t id)

unfoldable pub new_row : Config → (id now : ℕ) → Request → Row
unfolding schedule_time
new_row cfg id now req =
    let scheduled_for = schedule_time now (get_or req.delay 0) in
    record {
      id = id;
      type = req.type;
      payload = get_or req.payload (obj end);
      priority = get_or req.priority normal;
      status = initial_status scheduled_for;
      attempt = 0;
      max_retries = get_or req.max_retries cfg.max_retries_default;
      idempotency_key = req.idempotency_key;
      scheduled_for = scheduled_for;
      created_at = now;
      completed_at = none;
      error = none;
      worker_id = none;
    }

unfoldable pub create_job : Config → (id now : ℕ) → Request → Program Enqueued
unfolding new_row log_event remember_key to_envelope place publish_event
create_job cfg id now req = do
  let row = new_row cfg id now req
  job ← await (insert_job row)
  log_event id row.status job_created
  remember_key req.idempotency_key id cfg.idempotency_ttl_seconds
  await (hset job_data id (to_envelope job))
  place row.scheduled_for row.priority id
  publish_event id row.status job_created
  ret (record { job = job; deduped = false })

unfoldable pub enqueue_job : Config → (id now : ℕ) → Request → Program Enqueued
unfolding find_duplicate create_job
enqueue_job cfg id now req = do
  existing ← find_duplicate req.idempotency_key
  elim existing [
    | some job ↦ ret (record { job = job; deduped = true })
    | none ↦ create_job cfg id now req
  ]

abbrev pub is_retryable : Status → Bool
is_retryable dead = true
is_retryable failed = true
is_retryable _ = false

abbrev pub is_cancellable : Status → Bool
is_cancellable queued = true
is_cancellable delayed = true
is_cancellable _ = false

-- The rest of retryJob once the row is updated; `rows[0]` is undefined if the row is gone.
unfoldable pub push_updated : ℕ → Option Row → Program (Option Row)
unfolding to_envelope publish_event
push_updated id none = throw type_error
push_updated id (some updated) = do
  await (hset job_data id (to_envelope updated))
  await (lpush (queue updated.priority) id)
  publish_event id queued requeued_by_operator
  ret (some updated)

unfoldable pub requeue : ℕ → Program (Option Row)
unfolding log_event push_updated
requeue id = do
  updated ← await (update_job id (set_status queued ∷ set_error none ∷ set_worker none ∷ []))
  log_event id queued requeued_by_operator
  push_updated id updated

unfoldable pub retry_job : ℕ → Program (Option Row)
unfolding get_job_by_id requeue
retry_job id = do
  found ← get_job_by_id id
  elim found [
    | none ↦ ret none
    | some job ↦ if is_retryable job.status then requeue id else throw (invalid_state id job.status)
  ]

unfoldable pub withdraw : ℕ → Row → Program (Option Row)
unfolding log_event publish_event
withdraw id job = do
  await (lrem (queue job.priority) id)
  await (zrem id)
  await (hdel job_data id)
  updated ← await (update_job id (set_status failed ∷ set_error (some cancelled_by_operator) ∷ []))
  log_event id failed cancelled_by_operator
  publish_event id failed cancelled_by_operator
  ret updated

unfoldable pub cancel_job : ℕ → Program (Option Row)
unfolding get_job_by_id withdraw
cancel_job id = do
  found ← get_job_by_id id
  elim found [
    | none ↦ ret none
    | some job ↦
        if is_cancellable job.status then withdraw id job else throw (invalid_state id job.status)
  ]

unfoldable pub push_promoted : ℕ → Envelope → ℕ → Program ℕ
unfolding log_event publish_event
push_promoted id envelope n = do
  await (lpush (queue envelope.priority) id)
  await (update_job id (set_status queued ∷ []))
  log_event id queued promoted_to_queue
  publish_event id queued promoted
  ret (n + 1)

-- One turn of the loop of promoteDueDelayedJobs, over the number promoted so far.
unfoldable pub promote_one : ℕ → ℕ → Program ℕ
unfolding push_promoted
promote_one id n = do
  removed ← await (zrem id)
  if removed
      then (do
        raw ← await (hget job_data id)
        elim raw [ none ↦ ret n | some envelope ↦ push_promoted id envelope n ])
      else ret n

unfoldable pub promote_due_delayed_jobs : (now limit : ℕ) → Program ℕ
unfolding promote_one
promote_due_delayed_jobs now limit = do
  due ← await (zrangebyscore now limit)
  for_each due 0 promote_one
