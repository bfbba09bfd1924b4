-- ===== src/Scheduler.antt =====
-- packages/scheduler/src/index.js. `cron-parser` is a parameter: `prev cron now` is the last fire
-- time before `now`, or `none` where the library throws. `now` is the reading of the clock at the
-- start of a tick, and `draw` gives the ids of randomUUID().
use distributed_job_queue.Base.{
  ℕ, zero, suc, String, Bool, false, Option, none, some, ltb, leb, if◌then◌else◌,
}
use distributed_job_queue.Job.{
  queued, Row, Envelope, Definition, enqueued_by_scheduler, recurring_fired,
}
use distributed_job_queue.Store.Command.{
  queue, job_data, scheduler_lock, set_nx_px, release_lock, hset, lpush, insert_job, select_enabled,
  set_last_run,
}
use distributed_job_queue.Store.Program.{
  Program, ret, await, ◌>>=◌, ◌>>◌, try_catch, try_finally, for_each,
}
use distributed_job_queue.Queue.{log_event, publish_event}
mod Tests
pub mod Lock
pub mod Stored
pub mod Ticks
pub mod Once
pub mod Turns
pub mod Firing
pub mod Occurrences

pub record Config : Type 0 where
  pub max_retries_default : ℕ
  pub lock_ttl_ms : ℕ

abbrev pub CronParser : Type 0
CronParser = (cron : String) (now : ℕ) → Option ℕ

abbrev pub is_due_since : (last_run_at : Option ℕ) (prev now : ℕ) → Bool
is_due_since none prev now = leb prev now
is_due_since (some last) prev now = ltb last prev

unfoldable pub is_due : CronParser → Definition → (now : ℕ) → Bool
is_due parser def now = elim (parser def.cron_expression now) [
  | none ↦ false
  | some prev ↦ is_due_since def.last_run_at prev now
]

-- `def.max_retries || config.maxRetriesDefault`.
unfoldable pub or_default : ℕ → ℕ → ℕ
or_default zero default = default
or_default (suc n) default = suc n

unfoldable pub scheduled_row : Config → Definition → (id now : ℕ) → Row
unfolding or_default
scheduled_row cfg def id now = record {
  id = id;
  type = def.type;
  payload = def.payload_template;
  priority = def.priority;
  status = queued;
  attempt = 0;
  max_retries = or_default def.max_retries cfg.max_retries_default;
  idempotency_key = none;
  scheduled_for = none;
  created_at = now;
  completed_at = none;
  error = none;
  worker_id = none;
}

unfoldable pub scheduled_envelope : (id : ℕ) → Row → Envelope
scheduled_envelope id job = record {
  id = id;
  type = job.type;
  payload = job.payload;
  priority = job.priority;
  attempt = 0;
  max_retries = job.max_retries;
}

unfoldable pub fire_scheduled_job : Config → Definition → (id now : ℕ) → Program Unit
unfolding scheduled_row scheduled_envelope log_event publish_event
fire_scheduled_job cfg def id now = do
  job ← await (insert_job (scheduled_row cfg def id now))
  log_event id queued (enqueued_by_scheduler def.id def.cron_expression)
  await (set_last_run def.id now)
  await (hset job_data id (scheduled_envelope id job))
  await (lpush (queue job.priority) id)
  publish_event id queued recurring_fired

unfoldable pub fire_if_due :
    CronParser → Config → (draw : ℕ → ℕ) (now : ℕ) → Definition → Program Unit
unfolding is_due fire_scheduled_job
fire_if_due parser cfg draw now def =
    if is_due parser def now then fire_scheduled_job cfg def (draw def.id) now else ret tt

unfoldable pub fire_due : CronParser → Config → (draw : ℕ → ℕ) (now : ℕ) → Program Unit
unfolding fire_if_due
fire_due parser cfg draw now = do
  definitions ← await select_enabled
  for_each definitions tt (λ def _. fire_if_due parser cfg draw now def)

unfoldable pub tick :
    CronParser → Config → (instance_id : ℕ) (draw : ℕ → ℕ) (now : ℕ) → Program Unit
unfolding fire_due
tick parser cfg instance_id draw now = do
  acquired ← await (set_nx_px scheduler_lock instance_id cfg.lock_ttl_ms)
  if acquired
      then try_finally (try_catch (fire_due parser cfg draw now) (λ _. ret tt))
          (await (release_lock scheduler_lock instance_id))
      else ret tt
