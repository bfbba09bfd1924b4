-- ===== src/Worker/Process.antt =====
-- packages/worker/src/process.js. What the code reads from the clock and from Math.random() comes
-- in a record. The interval that sends heartbeats meanwhile, and that the `finally` clears, is left out:
-- a heartbeat is Worker.Claim.heartbeat, and Custody has it sent at any time.
mod Tests
pub mod Final
pub mod Endings
pub mod Outcomes
pub mod Stuck
pub mod Released
use distributed_job_queue.Base.{
  ℕ, ◌+◌, Bool, true, false, Option, none, some, [], ◌∷◌, ltb, leb, if◌then◌else◌,
}
use mathlib.Core.Option
use distributed_job_queue.Job.{
  active, completed, delayed, dead, Error, timed_out, no_handler, claimed_by,
  completed_successfully, error_text, attempt_failed, retry_scheduled, exhausted, moved_to_dlq,
  Envelope,
}
use distributed_job_queue.Store.Command.{
  job_data, set_status, set_attempt, set_error, set_worker, set_scheduled, set_completed, hset,
  hdel, zadd, update_job,
}
use distributed_job_queue.Store.Program.{
  Result, ok, err, Program, ret, resume, await, ◌>>=◌, ◌>>◌, try_catch,
}
use distributed_job_queue.Backoff.{pos, compute_backoff_ms}
use distributed_job_queue.Queue.{log_event, publish_event}
use distributed_job_queue.Worker.Claim.{Claimed, release_job}
use distributed_job_queue.Worker.Handlers.{Output, Settled, get_handler}

pub record Config : Type 0 where
  pub default_timeout_ms : ℕ
  pub backoff_base_ms : ℕ
  pub backoff_max_ms : ℕ

-- `completed_at` and `db_now` are readings of now() in Postgres, `now` is Date.now() where the retry
-- is scheduled, `random` is the draw of computeBackoffMs and `latency` that of the handler.
pub record Readings : Type 0 where
  pub completed_at : ℕ
  pub db_now : ℕ
  pub now : ℕ
  pub random : ℕ
  pub latency : ℕ

pub data Outcome : Type 0 where
  completed_with : Output → Outcome
  retry_in : (delay_ms : ℕ) → Outcome
  gave_up : Outcome

-- The race of the handler with the timer.
unfoldable pub with_timeout : Settled → ℕ → Result Output
with_timeout s ms = if ltb ms s.after_ms then err (timed_out ms) else s.outcome

unfoldable pub run_handler : Config → Readings → Option Envelope → Result Output
unfolding get_handler with_timeout
run_handler cfg t none = err (no_handler none)
run_handler cfg t (some e) = elim (get_handler (some e.type)) [
  | ok h ↦ with_timeout (h e.payload e.attempt t.latency) cfg.default_timeout_ms
  | err x ↦ err x
]

-- `nextAttempt <= envelope.maxRetries`; both are NaN or undefined for the envelope `{ id }`.
abbrev pub will_retry : Option Envelope → Bool
will_retry none = false
will_retry (some e) = leb (e.attempt + 1) e.max_retries

abbrev next_attempt : Option Envelope → Option ℕ
next_attempt none = none
next_attempt (some e) = some (e.attempt + 1)

unfoldable pub schedule_retry :
    Config → Readings → (worker id : ℕ) → Envelope → Error → Program Outcome
unfolding compute_backoff_ms log_event publish_event release_job
schedule_retry cfg t worker id e error = do
  let next = e.attempt + 1
  delay ←
      resume
        (compute_backoff_ms t.random (pos e.attempt) cfg.backoff_base_ms cfg.backoff_max_ms true)
  await (
      update_job id (
        set_status delayed
        ∷ set_attempt (some next)
        ∷ set_error (some (error_text error))
        ∷ set_scheduled (some (t.db_now + delay))
        ∷ []))
  log_event id delayed (attempt_failed next error delay)
  publish_event id delayed (retry_scheduled next e.max_retries delay)
  await (hset job_data id (record e { attempt = next }))
  await (zadd (t.now + delay) id)
  release_job worker id
  ret (retry_in delay)

unfoldable pub give_up : (worker id : ℕ) → Option Envelope → Error → Program Outcome
unfolding log_event publish_event release_job
give_up worker id envelope error = do
  await (
      update_job id (
        set_status dead
        ∷ set_attempt (next_attempt envelope)
        ∷ set_error (some (error_text error))
        ∷ []))
  log_event id dead (exhausted (Option.map (λ (e : Envelope). e.max_retries) envelope) error)
  publish_event id dead moved_to_dlq
  await (hdel job_data id)
  release_job worker id
  ret gave_up

unfoldable pub handle_failure :
    Config → Readings → (worker id : ℕ) → Option Envelope → Error → Program Outcome
unfolding schedule_retry give_up
handle_failure cfg t worker id none error = give_up worker id none error
handle_failure cfg t worker id (some e) error =
    if will_retry (some e)
    then schedule_retry cfg t worker id e error
    else give_up worker id (some e) error

-- The `try` block of processJob.
unfoldable pub attempt_job : Config → Readings → (worker : ℕ) → Claimed → Program Outcome
unfolding log_event publish_event run_handler release_job
attempt_job cfg t worker claimed = do
  let id = claimed.id
  await (update_job id (set_status active ∷ set_worker (some worker) ∷ []))
  log_event id active (claimed_by worker)
  publish_event id active (claimed_by worker)
  result ← resume (run_handler cfg t claimed.envelope)
  await (
      update_job id
        (set_status completed ∷ set_completed (some t.completed_at) ∷ set_error none ∷ []))
  log_event id completed completed_successfully
  publish_event id completed completed_successfully
  await (hdel job_data id)
  release_job worker id
  ret (completed_with result)

unfoldable pub process_job : Config → Readings → (worker : ℕ) → Claimed → Program Outcome
unfolding attempt_job handle_failure
process_job cfg t worker claimed =
    try_catch (attempt_job cfg t worker claimed)
      (handle_failure cfg t worker claimed.id claimed.envelope)
