-- ===== src/Audit/Recovering.antt =====
-- The reaper and the scheduler, packages/reaper/src/index.js and packages/scheduler/src/index.js, keep
-- the audit log.
use distributed_job_queue.Base.{
  ℕ, zero, suc, ◌+◌, refl, true, false, Option, none, some, [], ◌∷◌, leb,
}
use mathlib.Core.Option.{get_or}
use distributed_job_queue.Job.{
  Row, Envelope, Definition, delayed, reaped, reaped_retry, reaped_requeued,
}
use distributed_job_queue.Store.Command.{
  job_data, set_status, set_attempt, set_error, set_worker, set_scheduled, publish, hset, hdel,
  zadd, update_job, release_lock, scheduler_lock,
}
use distributed_job_queue.Store.Program.{ret, try_catch}
use distributed_job_queue.Backoff.{pos, compute_backoff_ms}
use distributed_job_queue.Queue.{to_envelope}
use distributed_job_queue.Reaper
use distributed_job_queue.Reaper.{
  requeue_with_backoff, bury, recover, requeue_orphan, reap_job, reap_worker, reap_if_locked,
  is_alive, age_of,
}
use distributed_job_queue.Scheduler
use distributed_job_queue.Scheduler.{
  CronParser, scheduled_row, fire_scheduled_job, fire_if_due, fire_due, is_due,
}
use distributed_job_queue.Scheduler.Stored.{fired}
use distributed_job_queue.Audit.{
  Audits, Audits-ret, Audits-await, Audits-last, Audits-logged, Audits-if, Audits-try_catch,
  Audits-try_finally, Audits-for_each, Audits-resume,
}

module _ (cfg : Reaper.Config) (t : Reaper.Readings) (worker id age : ℕ) where
  requeue_with_backoff-Audits :
      (e : Envelope) → Audits none (requeue_with_backoff cfg t worker id age e)
  unfolding requeue_with_backoff
  requeue_with_backoff-Audits e =
      Audits-resume
        (compute_backoff_ms (t.random id) (pos e.attempt) cfg.backoff_base_ms cfg.backoff_max_ms
          true)
        _
        λ delay.
          Audits-logged
            (update_job id (
              set_status delayed
              ∷ set_attempt (some (e.attempt + 1))
              ∷ set_error (some (reaped worker age))
              ∷ set_worker none
              ∷ set_scheduled (some (t.db_now id + delay))
              ∷ []))
            id delayed (reaped_retry worker age (e.attempt + 1) e.max_retries delay) _ refl
            λ _.
              Audits-await
                (publish (record {
                  job_id = id;
                  status = delayed;
                  message = reaped_requeued worker age (e.attempt + 1);
                }))
                _
                λ _.
                  Audits-await (hset job_data id (record e { attempt = e.attempt + 1 })) _
                    λ _. Audits-last (zadd (t.later id + delay) id) refl

  bury-Audits : (e : Envelope) → Audits none (bury worker id age e)
  unfolding bury
  bury-Audits e =
      Audits-logged _ _ _ _ _ refl λ _. Audits-await _ _ λ _. Audits-last (hdel job_data id) refl

  recover-Audits :
      (raw : Option Envelope) (job : Option Row) → Audits none (recover cfg t worker id age raw job)
  unfolding recover
  recover-Audits raw none = Audits-ret tt
  recover-Audits raw (some job) =
      let e = get_or raw (to_envelope job) in
      Audits-if (leb (e.attempt + 1) e.max_retries) (requeue_with_backoff-Audits e) (bury-Audits e)

  requeue_orphan-Audits : Audits none (requeue_orphan cfg t worker id age)
  unfolding requeue_orphan
  requeue_orphan-Audits = Audits-await _ _ (elim [
    | zero ↦ Audits-ret tt
    | suc n ↦ Audits-await _ _ λ _. Audits-await _ _ λ raw. Audits-await _ _ (recover-Audits raw)
  ])

module _ (cfg : Reaper.Config) (t : Reaper.Readings) where
  reap_job-Audits : (worker id : ℕ) → Audits none (reap_job cfg t worker id)
  unfolding reap_job
  reap_job-Audits worker id = Audits-await _ _ λ beat.
      Audits-if (is_alive (t.now worker) cfg.orphan_timeout_ms beat) (Audits-ret tt)
        (requeue_orphan-Audits cfg t worker id (age_of (t.now worker) beat))

  reap_if_locked-Audits : (worker : ℕ) → Audits none (reap_if_locked cfg t worker)
  unfolding reap_if_locked reap_worker
  reap_if_locked-Audits worker = Audits-await _ _ (elim [
    | true ↦
        Audits-try_catch none (reap_worker cfg t worker) _
          (Audits-await _ _ λ ids. Audits-for_each ids tt _ (λ id _. reap_job-Audits worker id))
          (λ _. Audits-ret tt)
    | false ↦ Audits-ret tt
  ])

  pub reaper_tick-Audits : Audits none (Reaper.tick cfg t)
  unfolding Reaper.tick
  reaper_tick-Audits =
      Audits-await _ _
        λ workers. Audits-for_each workers tt _ (λ worker _. reap_if_locked-Audits worker)

module _ (cfg : Scheduler.Config) where
  fire_scheduled_job-Audits :
      (def : Definition) (id now : ℕ) → Audits none (fire_scheduled_job cfg def id now)
  unfolding fire_scheduled_job scheduled_row
  fire_scheduled_job-Audits def id now = Audits-logged _ _ _ _ _ refl λ job.
      Audits-await _ _
        λ _. Audits-await _ _ λ _. Audits-await _ _ λ _. Audits-last (publish (fired id)) refl

  fire_due-Audits :
      (parser : CronParser) (draw : ℕ → ℕ) (now : ℕ) → Audits none (fire_due parser cfg draw now)
  unfolding fire_due fire_if_due
  fire_due-Audits parser draw now = Audits-await _ _ λ defs. Audits-for_each defs tt _ (λ def _.
      Audits-if (is_due parser def now) (fire_scheduled_job-Audits def (draw def.id) now)
        (Audits-ret tt))

  pub scheduler_tick-Audits :
      (parser : CronParser) (instance_id : ℕ) (draw : ℕ → ℕ) (now : ℕ)
      → Audits none (Scheduler.tick parser cfg instance_id draw now)
  unfolding Scheduler.tick
  scheduler_tick-Audits parser instance_id draw now = Audits-await _ _ (elim [
    | true ↦
        Audits-try_finally none (try_catch (fire_due parser cfg draw now) (λ _. ret tt)) _
          (Audits-try_catch none (fire_due parser cfg draw now) _ (fire_due-Audits parser draw now)
            (λ _. Audits-ret tt))
          (Audits-last (release_lock scheduler_lock instance_id) refl)
    | false ↦ Audits-ret tt
  ])
