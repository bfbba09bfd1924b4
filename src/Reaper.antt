-- ===== src/Reaper.antt =====
-- packages/reaper/src/index.js. The readings made for a job are functions of its id; `now` is the
-- reading of Date.now() with which the scan of a worker's list begins.
mod Tests
pub mod Recovery
pub mod Lost
use distributed_job_queue.Base.{
  ℕ, zero, suc, ◌+◌, ◌-◌, ◌*◌, Bool, true, false, Option, none, some, [], ◌∷◌, ltb, leb,
  if◌then◌else◌,
}
use mathlib.Core.Option.{get_or}
use distributed_job_queue.Job.{
  delayed, dead, reaped, reaped_retry, reaped_requeued, reaped_exhausted, moved_to_dlq_after_crash,
  Row, Envelope,
}
use distributed_job_queue.Store.Command.{
  processing, job_data, heartbeats, reaper_lock, set_status, set_attempt, set_error, set_worker,
  set_scheduled, set_nx_px, hset, hget, hdel, zadd, lrem, lrange, smembers, select_job, update_job,
}
use distributed_job_queue.Store.Program.{
  Program, ret, resume, await, ◌>>=◌, ◌>>◌, try_catch, for_each,
}
use distributed_job_queue.Backoff.{pos, compute_backoff_ms}
use distributed_job_queue.Queue.{log_event, publish_event, to_envelope}

pub record Config : Type 0 where
  pub poll_interval_ms : ℕ
  pub orphan_timeout_ms : ℕ
  pub backoff_base_ms : ℕ
  pub backoff_max_ms : ℕ

-- `later` is Date.now() where the retry is scheduled, `db_now` is now() in Postgres.
pub record Readings : Type 0 where
  pub now : (worker : ℕ) → ℕ
  pub later : (id : ℕ) → ℕ
  pub db_now : (id : ℕ) → ℕ
  pub random : (id : ℕ) → ℕ

abbrev pub lock_ttl_ms : Config → ℕ
lock_ttl_ms cfg = cfg.poll_interval_ms * 4

unfoldable pub requeue_with_backoff :
    Config → Readings → (worker id age : ℕ) → Envelope → Program Unit
unfolding compute_backoff_ms log_event publish_event
requeue_with_backoff cfg t worker id age e = do
  let next = e.attempt + 1
  delay ←
      resume (
        compute_backoff_ms (t.random id) (pos e.attempt) cfg.backoff_base_ms cfg.backoff_max_ms
          true)
  await (
      update_job id (
        set_status delayed
        ∷ set_attempt (some next)
        ∷ set_error (some (reaped worker age))
        ∷ set_worker none
        ∷ set_scheduled (some (t.db_now id + delay))
        ∷ []))
  log_event id delayed (reaped_retry worker age next e.max_retries delay)
  publish_event id delayed (reaped_requeued worker age next)
  await (hset job_data id (record e { attempt = next }))
  await (zadd (t.later id + delay) id)

unfoldable pub bury : (worker id age : ℕ) → Envelope → Program Unit
unfolding log_event publish_event
bury worker id age e = do
  await (
      update_job id (
        set_status dead
        ∷ set_attempt (some (e.attempt + 1))
        ∷ set_error (some (reaped worker age))
        ∷ set_worker none
        ∷ []))
  log_event id dead (reaped_exhausted worker age)
  publish_event id dead moved_to_dlq_after_crash
  await (hdel job_data id)

-- The rest of requeueOrphan, from the envelope in Redis and the row in Postgres.
unfoldable pub recover :
    Config → Readings → (worker id age : ℕ) → Option Envelope → Option Row → Program Unit
unfolding requeue_with_backoff bury to_envelope
recover cfg t worker id age raw none = ret tt
recover cfg t worker id age raw (some job) =
    let e = get_or raw (to_envelope job) in
    if leb (e.attempt + 1) e.max_retries
    then requeue_with_backoff cfg t worker id age e
    else bury worker id age e

-- `!removed`.
abbrev pub none_removed : ℕ → Bool
none_removed zero = true
none_removed (suc n) = false

unfoldable pub requeue_orphan : Config → Readings → (worker id age : ℕ) → Program Unit
unfolding recover
requeue_orphan cfg t worker id age = do
  removed ← await (lrem (processing worker) id)
  if none_removed removed then ret tt else (do
    await (hdel heartbeats id)
    raw ← await (hget job_data id)
    job ← await (select_job id)
    recover cfg t worker id age raw job)

-- `hb && now - Number(hb) < orphanTimeoutMs`.
abbrev pub is_alive : (now timeout : ℕ) → Option ℕ → Bool
is_alive now timeout none = false
is_alive now timeout (some beat) = ltb now (beat + timeout)

abbrev pub age_of : (now : ℕ) → Option ℕ → ℕ
age_of now none = now
age_of now (some beat) = now - beat

unfoldable pub reap_job : Config → Readings → (worker id : ℕ) → Program Unit
unfolding requeue_orphan
reap_job cfg t worker id = do
  beat ← await (hget heartbeats id)
  if is_alive (t.now worker) cfg.orphan_timeout_ms beat
      then ret tt
      else requeue_orphan cfg t worker id (age_of (t.now worker) beat)

-- An empty list makes no turn of the loop, as the early return does.
unfoldable pub reap_worker : Config → Readings → (worker : ℕ) → Program Unit
unfolding reap_job
reap_worker cfg t worker = do
  ids ← await (lrange (processing worker))
  for_each ids tt (λ id _. reap_job cfg t worker id)

unfoldable pub reap_if_locked : Config → Readings → (worker : ℕ) → Program Unit
unfolding reap_worker
reap_if_locked cfg t worker = do
  acquired ← await (set_nx_px (reaper_lock worker) 1 (lock_ttl_ms cfg))
  if acquired then try_catch (reap_worker cfg t worker) (λ _. ret tt) else ret tt

unfoldable pub tick : Config → Readings → Program Unit
unfolding reap_if_locked
tick cfg t = do
  workers ← await smembers
  for_each workers tt (λ worker _. reap_if_locked cfg t worker)
