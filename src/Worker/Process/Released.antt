-- ===== src/Worker/Process/Released.antt =====
-- NFR-3: processJob of packages/worker/src/process.js keeps a job in the worker's processing list
-- until the job stands somewhere else.
use distributed_job_queue.Base.{ℕ, ◌+◌, List, [], ◌≡◌, refl, Option, none, some, ◌∷◌, true}
use distributed_job_queue.Job.{
  Status, delayed, completed, dead, Error, Envelope, error_text, attempt_failed, retry_scheduled,
}
use distributed_job_queue.Store.Command.{
  Command, Reply, update_job, Assign, set_status, set_attempt, set_error, set_scheduled,
  insert_event, publish, hset, zadd, lrem, hdel, processing, job_data, heartbeats,
}
use distributed_job_queue.Store.Program.{Result, ok, err, Program, ret, resume, ◌>>=◌, ◌>>◌}
use distributed_job_queue.Store.Server.{Server}
use distributed_job_queue.Store.Protocol.{
  Protocol, Follows, trace, trace-Follows, Obeys, Obeys-await, Obeys-ret, Obeys-throw, Obeys-if,
  Obeys-try_catch, Stays-resume, Stays->>=,
}
use distributed_job_queue.Backoff.{pos, compute_backoff_ms}
use distributed_job_queue.Worker.Claim.{Claimed, release_job}
use distributed_job_queue.Worker.Process.{
  Config, Readings, retry_in, gave_up, completed_with, process_job, attempt_job, handle_failure,
  schedule_retry, give_up, run_handler, will_retry,
}

-- Where the services have confirmed that a job stands: nowhere yet, in the delayed set, or in
-- Postgres with a final status.
pub data Standing : Type 0 where
  nowhere : Standing
  parked final : (id : ℕ) → Standing

abbrev pub stands_by : (id : ℕ) → Status → Standing
stands_by id completed = final id
stands_by id dead = final id
stands_by id s = nowhere

abbrev pub stands_after : Standing → (c : Command) → Result (Reply c) → Standing
stands_after h (update_job i (set_status s ∷ as')) (ok x) = stands_by i s
stands_after h (zadd t i) (ok x) = parked i
stands_after h c r = h

abbrev pub IsSettled : (id : ℕ) → Standing → Type 0
IsSettled id nowhere = ⊥
IsSettled id (parked j) = j ≡ id
IsSettled id (final j) = j ≡ id

abbrev pub NeedsStanding : Standing → Command → Type 0
NeedsStanding h (lrem (processing w) i) = IsSettled i h
NeedsStanding h (hdel heartbeats i) = IsSettled i h
NeedsStanding h (hdel job_data i) = h ≡ final i
NeedsStanding h c = Unit

-- A job leaves a processing list, and loses its heartbeat, once it is settled; its data go once its
-- status is final.
abbrev pub settled_first : Protocol
settled_first = record { State = Standing; next = stands_after; Permits = NeedsStanding }

module _ {A B : Type 0} where
  Obeys-resume :
      (h : Standing) (r : Result A) (f : A → Program B)
      → ((a : A) → Obeys settled_first h (f a))
      → Obeys settled_first h (resume r >>= f)
  Obeys-resume h (ok a) f q = q a
  Obeys-resume h (err e) f q = Obeys-throw h e

module _ (worker id : ℕ) where
  release_job-Obeys :
      {A : Type 0} (h : Standing) (a : A)
      → IsSettled id h
      → Obeys settled_first h (release_job worker id >> ret a)
  unfolding release_job
  release_job-Obeys h a p =
      Stays->>= h (release_job worker id) (λ _. ret a)
        (p, λ r. refl, elim [ ok n ↦ (p, λ r. refl, Stays-resume settled_first h) | err e ↦ tt ])
        (λ _. Obeys-ret h a)

  abbrev retry_assignments : Readings → Envelope → Error → (delay : ℕ) → List Assign
  retry_assignments t e error delay =
      set_status delayed
      ∷ set_attempt (some (e.attempt + 1))
      ∷ set_error (some (error_text error))
      ∷ set_scheduled (some (t.db_now + delay))
      ∷ []

  schedule_retry-Obeys :
      (cfg : Config) (t : Readings) (e : Envelope) (error : Error) (h : Standing)
      → Obeys settled_first h (schedule_retry cfg t worker id e error)
  unfolding schedule_retry
  schedule_retry-Obeys cfg t e error h =
      Obeys-resume h
        (compute_backoff_ms t.random (pos e.attempt) cfg.backoff_base_ms cfg.backoff_max_ms true) _
        λ delay. Obeys-await h (update_job id (retry_assignments t e error delay)) _ tt λ _.
          Obeys-await _
            (insert_event (record {
              job_id = id;
              status = delayed;
              message = attempt_failed (e.attempt + 1) error delay;
            }))
            _ tt
            λ _.
              Obeys-await _
                (publish (record {
                  job_id = id;
                  status = delayed;
                  message = retry_scheduled (e.attempt + 1) e.max_retries delay;
                }))
                _ tt
                λ _.
                  Obeys-await _ (hset job_data id (record e { attempt = e.attempt + 1 })) _ tt λ _.
                    Obeys-await _ (zadd (t.now + delay) id) _ tt
                      λ _. release_job-Obeys (parked id) (retry_in delay) refl

  give_up-Obeys :
      (e : Option Envelope) (error : Error) (h : Standing)
      → Obeys settled_first h (give_up worker id e error)
  unfolding give_up
  give_up-Obeys e error h = Obeys-await _ _ _ tt λ _. Obeys-await _ _ _ tt λ _.
      Obeys-await _ _ _ tt
        λ _. Obeys-await _ _ _ refl λ _. release_job-Obeys (final id) gave_up refl

  handle_failure-Obeys :
      (cfg : Config) (t : Readings) (e : Option Envelope) (error : Error) (h : Standing)
      → Obeys settled_first h (handle_failure cfg t worker id e error)
  unfolding handle_failure
  handle_failure-Obeys cfg t none error h = give_up-Obeys none error h
  handle_failure-Obeys cfg t (some e) error h =
      Obeys-if h (will_retry (some e)) (λ _. schedule_retry-Obeys cfg t e error h)
        (λ _. give_up-Obeys (some e) error h)

attempt_job-Obeys :
    (cfg : Config) (t : Readings) (worker : ℕ) (claimed : Claimed)
    → Obeys settled_first nowhere (attempt_job cfg t worker claimed)
unfolding attempt_job
attempt_job-Obeys cfg t worker claimed = Obeys-await _ _ _ tt λ _. Obeys-await _ _ _ tt λ _.
    Obeys-await _ _ _ tt λ _. Obeys-resume nowhere (run_handler cfg t claimed.envelope) _ λ result.
      Obeys-await _ _ _ tt λ _. Obeys-await _ _ _ tt λ _. Obeys-await _ _ _ tt λ _.
        Obeys-await _ _ _ refl
          λ _. release_job-Obeys worker claimed.id (final claimed.id) (completed_with result) refl

-- Whatever the services answer and wherever the run breaks off, processJob takes a job out of the
-- worker's processing list, and removes its heartbeat, only after Redis has confirmed it in the
-- delayed set or Postgres has confirmed its status 'completed' or 'dead'; and it removes the job's
-- data only after Postgres has confirmed one of these two.
pub process_job-settled_first :
    (srv : Server) (cfg : Config) (t : Readings) (worker : ℕ) (claimed : Claimed) (w : srv.World)
    → Follows settled_first nowhere (trace srv (process_job cfg t worker claimed) w)
unfolding process_job
process_job-settled_first srv cfg t worker claimed w =
    trace-Follows srv nowhere (process_job cfg t worker claimed) w (
      Obeys-try_catch nowhere (attempt_job cfg t worker claimed)
        (handle_failure cfg t worker claimed.id claimed.envelope)
        (attempt_job-Obeys cfg t worker claimed)
        (λ error h. handle_failure-Obeys worker claimed.id cfg t claimed.envelope error h))
