-- ===== src/Audit/Working.antt =====
-- The lanes of packages/worker/src keep the audit log.
use distributed_job_queue.Base.{ℕ, ◌+◌, refl, Option, none, some, true, List, [], ◌∷◌}
use distributed_job_queue.Job.{
  Priority, Error, Envelope, delayed, attempt_failed, retry_scheduled, error_text,
}
use distributed_job_queue.Store.Command.{
  queue, processing, lmove, blmove, update_job, set_status, set_attempt, set_error, set_scheduled,
  publish, hset, zadd, hdel, job_data, heartbeats,
}
use distributed_job_queue.Store.Program.{ret, ◌>>◌}
use distributed_job_queue.Backoff.{pos, compute_backoff_ms}
use distributed_job_queue.Worker.Claim.{
  Claimed, is_last, move_job, start_claim, claim_from, claim_next_job, priorities, release_job,
}
use distributed_job_queue.Worker.Process.{
  Config, Readings, retry_in, schedule_retry, give_up, handle_failure, attempt_job, process_job,
  run_handler, will_retry,
}
use distributed_job_queue.Worker.Lane.{Turn, try_claim, try_process, run_lane}
use distributed_job_queue.Audit.{
  Audits, Audits-ret, Audits-await, Audits-last, Audits-logged, Audits-if, Audits->>=,
  Audits-try_catch, Audits-resume,
}

move_job-Audits : (worker seconds : ℕ) (p : Priority) → Audits none (move_job worker seconds p)
unfolding move_job
move_job-Audits worker seconds p =
    Audits-if (is_last p) (Audits-last (blmove (queue p) (processing worker) seconds) refl)
      (Audits-last (lmove (queue p) (processing worker)) refl)

claim_from-Audits :
    (worker now seconds : ℕ) (ps : List Priority) → Audits none (claim_from worker now seconds ps)
unfolding claim_from start_claim
claim_from-Audits worker now seconds [] = Audits-ret none
claim_from-Audits worker now seconds (p ∷ ps) =
    Audits->>= none (move_job worker seconds p) _ (move_job-Audits worker seconds p) (elim [
      | none ↦ claim_from-Audits worker now seconds ps
      | some id ↦ Audits-await _ _ λ _. Audits-await _ _ λ raw. Audits-ret _
    ])

release_job-Audits : (worker id : ℕ) → Audits none (release_job worker id)
unfolding release_job
release_job-Audits worker id = Audits-await _ _ λ _. Audits-last (hdel heartbeats id) refl

module _ (cfg : Config) (t : Readings) (worker : ℕ) where
  schedule_retry-Audits :
      (id : ℕ) (e : Envelope) (error : Error) → Audits none (schedule_retry cfg t worker id e error)
  unfolding schedule_retry
  schedule_retry-Audits id e error =
      Audits-resume
        (compute_backoff_ms t.random (pos e.attempt) cfg.backoff_base_ms cfg.backoff_max_ms true) _
        λ delay.
          Audits-logged
            (update_job id (
              set_status delayed
              ∷ set_attempt (some (e.attempt + 1))
              ∷ set_error (some (error_text error))
              ∷ set_scheduled (some (t.db_now + delay))
              ∷ []))
            id delayed (attempt_failed (e.attempt + 1) error delay) _ refl
            λ _.
              Audits-await
                (publish (record {
                  job_id = id;
                  status = delayed;
                  message = retry_scheduled (e.attempt + 1) e.max_retries delay;
                }))
                _
                λ _. Audits-await (hset job_data id (record e { attempt = e.attempt + 1 })) _ λ _.
                  Audits-await (zadd (t.now + delay) id) _ λ _.
                    Audits->>= none (release_job worker id) _ (release_job-Audits worker id)
                      λ _. Audits-ret (retry_in delay)

  give_up-Audits :
      (id : ℕ) (e : Option Envelope) (error : Error) → Audits none (give_up worker id e error)
  unfolding give_up
  give_up-Audits id e error = Audits-logged _ _ _ _ _ refl λ _. Audits-await _ _ λ _.
      Audits-await _ _ λ _.
        Audits->>= none (release_job worker id) _ (release_job-Audits worker id) λ _. Audits-ret _

  handle_failure-Audits :
      (id : ℕ) (e : Option Envelope) (error : Error)
      → Audits none (handle_failure cfg t worker id e error)
  unfolding handle_failure
  handle_failure-Audits id none error = give_up-Audits id none error
  handle_failure-Audits id (some e) error =
      Audits-if (will_retry (some e)) (schedule_retry-Audits id e error)
        (give_up-Audits id (some e) error)

  attempt_job-Audits : (c : Claimed) → Audits none (attempt_job cfg t worker c)
  unfolding attempt_job
  attempt_job-Audits c = Audits-logged _ _ _ _ _ refl λ _. Audits-await _ _ λ _.
      Audits-resume (run_handler cfg t c.envelope) _ λ result. Audits-logged _ _ _ _ _ refl λ _.
        Audits-await _ _ λ _. Audits-await _ _ λ _.
          Audits->>= none (release_job worker c.id) _ (release_job-Audits worker c.id)
            λ _. Audits-ret _

  process_job-Audits : (c : Claimed) → Audits none (process_job cfg t worker c)
  unfolding process_job
  process_job-Audits c =
      Audits-try_catch none (attempt_job cfg t worker c) _ (attempt_job-Audits c)
        (λ error. handle_failure-Audits c.id c.envelope error)

  try_process-Audits : (c : Option Claimed) → Audits none (try_process cfg worker t c)
  unfolding try_process
  try_process-Audits none = Audits-ret tt
  try_process-Audits (some c) =
      Audits-try_catch none (process_job cfg t worker c >> ret tt) _
        (Audits->>= none (process_job cfg t worker c) _ (process_job-Audits c) (λ _. Audits-ret tt))
        (λ _. Audits-ret tt)

try_claim-Audits : (worker now : ℕ) → Audits none (try_claim worker now)
unfolding try_claim claim_next_job
try_claim-Audits worker now =
    Audits-try_catch none (claim_from worker now 1 priorities) _
      (claim_from-Audits worker now 1 priorities) (λ _. Audits-ret none)

pub run_lane-Audits :
    (cfg : Config) (worker : ℕ) (turns : List Turn) → Audits none (run_lane cfg worker turns)
unfolding run_lane
run_lane-Audits cfg worker [] = Audits-ret tt
run_lane-Audits cfg worker (turn ∷ turns) = Audits-if turn.is_draining (Audits-ret tt) (
    Audits->>= none (try_claim worker turn.now) _ (try_claim-Audits worker turn.now) λ c.
      Audits->>= none (try_process cfg worker turn.readings c) _
        (try_process-Audits cfg turn.readings worker c) λ _. run_lane-Audits cfg worker turns)
