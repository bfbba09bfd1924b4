-- ===== src/Worker/Process/Final.antt =====
-- What processJob of packages/worker/src/process.js leaves behind, against reliable services.
use distributed_job_queue.Base.{
  ℕ, ◌+◌, ◌*◌, ◌/◌, ◌^◌, ◌≡◌, ap, min, true, false, none, some, List, [], ◌∷◌, ◌++◌, leb,
}
use distributed_job_queue.Job.{
  Status, active, completed, delayed, dead, LogEntry, Envelope, Error, Message, claimed_by,
  completed_successfully, error_text, attempt_failed, retry_scheduled, exhausted, moved_to_dlq,
}
use distributed_job_queue.Store.Command.{
  processing, Assign, set_status, set_worker, set_completed, set_error, set_attempt, set_scheduled,
}
use distributed_job_queue.Store.Program.{Result, ok, err, Program, resume, ◌>>=◌}
use distributed_job_queue.Store.View.{
  View, set_list, set_at, schedule, unscheduled, without, update_rows,
}
use distributed_job_queue.Store.Server.{play}
use distributed_job_queue.Worker.Claim.{Claimed}
use distributed_job_queue.Worker.Handlers.{Output}
use distributed_job_queue.Worker.Process.{
  Config, Readings, Outcome, completed_with, retry_in, gave_up, run_handler, attempt_job,
  handle_failure,
}

-- A row update, an audit entry and an event: the start of each stage.
abbrev pub staged : ℕ → List Assign → (logged shown : LogEntry) → View → View
staged id as' logged shown v = record v {
  jobs = update_rows id as' v.jobs;
  events = v.events ++ logged ∷ [];
  published = shown ∷ v.published;
}

abbrev pub entry : ℕ → Status → Message → LogEntry
entry id s m = record { job_id = id; status = s; message = m }

abbrev pub claimed_view : (worker id : ℕ) → View → View
claimed_view worker id =
    staged id (set_status active ∷ set_worker (some worker) ∷ [])
      (entry id active (claimed_by worker)) (entry id active (claimed_by worker))

-- The job out of the worker's list, and its heartbeat gone.
abbrev pub released : (worker id : ℕ) → View → View
released worker id v = record v {
  lists = set_list (processing worker) (without id (v.lists (processing worker))) v.lists;
  beats = set_at id none v.beats;
}

-- The view before releaseJob, and the view after it.
abbrev pub completing : (id at : ℕ) → View → View
completing id at v =
    let told =
      staged id (set_status completed ∷ set_completed (some at) ∷ set_error none ∷ [])
        (entry id completed completed_successfully) (entry id completed completed_successfully) v in
    record told { envelopes = set_at id none told.envelopes }

abbrev pub completed_view : (worker id at : ℕ) → View → View
completed_view worker id at v = released worker id (completing id at v)

abbrev pub attempted : Readings → (worker id : ℕ) → View → Result Output → Result Outcome × View
attempted t worker id v (ok x) = (ok (completed_with x), completed_view worker id t.completed_at v)
attempted t worker id v (err e) = (err e, v)

play-resume :
    {A B : Type 0} (f : A → Program B) (v : View) {r s : Result A}
    → r ≡ s
    → play (resume r >>= f) v ≡ play (resume s >>= f) v
play-resume f v e = ap (λ r. play (resume r >>= f) v) e

pub play-attempt_job :
    (cfg : Config) (t : Readings) (worker : ℕ) (c : Claimed) (v : View) (r : Result Output)
    → run_handler cfg t c.envelope ≡ r
    → play (attempt_job cfg t worker c) v ≡ attempted t worker c.id (claimed_view worker c.id v) r
unfolding attempt_job
play-attempt_job cfg t worker c v (ok x) e = play-resume _ _ e
play-attempt_job cfg t worker c v (err x) e = play-resume _ _ e

-- The delay that computeBackoffMs draws for the retry.
unfoldable pub delay_of : Config → Readings → Envelope → ℕ
delay_of cfg t e = t.random * min (cfg.backoff_base_ms * 2 ^ e.attempt) cfg.backoff_max_ms / 2 ^ 53

abbrev pub retrying : Config → Readings → (id : ℕ) → Envelope → Error → View → View
retrying cfg t id e error v =
    let delay = delay_of cfg t e in
    let next = e.attempt + 1 in
    let told =
      staged id
        (set_status delayed
          ∷ set_attempt (some next)
          ∷ set_error (some (error_text error))
          ∷ set_scheduled (some (t.db_now + delay))
          ∷ [])
        (entry id delayed (attempt_failed next error delay))
        (entry id delayed (retry_scheduled next e.max_retries delay)) v in
    record told {
      envelopes = set_at id (some (record e { attempt = next })) told.envelopes;
      delayed_set = schedule (t.now + delay) id (unscheduled id told.delayed_set);
    }

abbrev pub retried_view : Config → Readings → (worker id : ℕ) → Envelope → Error → View → View
retried_view cfg t worker id e error v = released worker id (retrying cfg t id e error v)

abbrev pub burying : (id : ℕ) → Envelope → Error → View → View
burying id e error v =
    let told =
      staged id
        (set_status dead
          ∷ set_attempt (some (e.attempt + 1))
          ∷ set_error (some (error_text error))
          ∷ [])
        (entry id dead (exhausted (some e.max_retries) error)) (entry id dead moved_to_dlq) v in
    record told { envelopes = set_at id none told.envelopes }

abbrev pub dead_view : (worker id : ℕ) → Envelope → Error → View → View
dead_view worker id e error v = released worker id (burying id e error v)

module _ (cfg : Config) (t : Readings) (worker id : ℕ) (e : Envelope) (error : Error)
    (v : View) where
  pub play-retry :
      leb (e.attempt + 1) e.max_retries ≡ true
      → play (handle_failure cfg t worker id (some e) error) v
        ≡ (ok (retry_in (delay_of cfg t e)), retried_view cfg t worker id e error v)
  unfolding handle_failure delay_of
  play-retry more = rw more

  pub play-give_up :
      leb (e.attempt + 1) e.max_retries ≡ false
      → play (handle_failure cfg t worker id (some e) error) v
        ≡ (ok gave_up, dead_view worker id e error v)
  unfolding handle_failure
  play-give_up more = rw more
