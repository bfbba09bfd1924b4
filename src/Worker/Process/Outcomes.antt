-- ===== src/Worker/Process/Outcomes.antt =====
-- The three ways in which a job leaves a worker: packages/worker/src/process.js, FR-4.1 and FR-4.2.
use distributed_job_queue.Base.{
  ℕ, ◌+◌, ◌≤◌, ◌<◌, ◌≡◌, refl, sym, ◌∙◌, ap, subst, none, some, List, [], ◌∷◌, arith, ==_refl,
}
use distributed_job_queue.Job.{
  Priority, active, completed, delayed, dead, Row, Envelope, Error, error_text,
}
use distributed_job_queue.Store.Command.{
  Assign, set_status, set_worker, set_attempt, set_error, set_scheduled, set_completed,
}
use distributed_job_queue.Store.Program.{Result, ok, err, Program}
use distributed_job_queue.Store.Rows.{find_row-update}
use distributed_job_queue.Store.View.{View, find_row, update_rows, assign}
use distributed_job_queue.Store.Server.{Server, IsReliable, Agrees, run, play, run-eq}
use distributed_job_queue.Store.Runs.{caught, play-try_catch}
use distributed_job_queue.Worker.Claim.{Claimed}
use distributed_job_queue.Worker.Handlers.{Output}
use distributed_job_queue.Worker.Process.{
  Config, Readings, Outcome, completed_with, retry_in, gave_up, run_handler, attempt_job,
  process_job, handle_failure,
}
use distributed_job_queue.Worker.Process.Final.{
  claimed_view, play-attempt_job, completed_view, delay_of, retried_view, dead_view, retrying,
  burying, completing, play-retry, play-give_up,
}
use distributed_job_queue.Worker.Process.Endings.{
  IsRetried, IsBuried, IsCompleted, released-IsReleased,
}

abbrev claim_updates : ℕ → List Assign
claim_updates worker = set_status active ∷ set_worker (some worker) ∷ []

module _ (cfg : Config) (t : Readings) (worker id : ℕ) (p : Priority) (e : Envelope)
    (row : Row) where
  abbrev claim : Claimed
  claim = record { id = id; priority = p; envelope = some e }

  abbrev retry_updates : Error → List Assign
  retry_updates error =
      set_status delayed
      ∷ set_attempt (some (e.attempt + 1))
      ∷ set_error (some (error_text error))
      ∷ set_scheduled (some (t.db_now + delay_of cfg t e))
      ∷ []

  abbrev dead_updates : Error → List Assign
  dead_updates error =
      set_status dead
      ∷ set_attempt (some (e.attempt + 1))
      ∷ set_error (some (error_text error))
      ∷ []

  abbrev completed_updates : List Assign
  completed_updates =
      set_status completed ∷ set_completed (some t.completed_at) ∷ set_error none ∷ []

  twice :
      (as' bs : List Assign) (v : View)
      → find_row id v.jobs ≡ some row
      → find_row id (update_rows id bs (update_rows id as' v.jobs))
        ≡ some (assign bs (assign as' row))
  twice as' bs v found =
      find_row-update id bs _ (assign as' row) (find_row-update id as' _ row found)

  pub retried_view-IsRetried :
      (error : Error) (v : View)
      → find_row id v.jobs ≡ some row
      → IsRetried worker id
          (delay_of cfg t e)
          t.now
          e
          v
          (retried_view cfg t worker id e error (claimed_view worker id v))
  retried_view-IsRetried error v found = record {
    released = released-IsReleased worker id (retrying cfg t id e error (claimed_view worker id v));
    described = ground (arith, ==_refl id);
    waiting = refl;
    stored = record {
      row = _;
      found = twice (claim_updates worker) (retry_updates error) v found;
      has_status = refl;
      has_attempt = refl;
    };
  }

  pub dead_view-IsBuried :
      (error : Error) (v : View)
      → find_row id v.jobs ≡ some row
      → IsBuried worker id e v (dead_view worker id e error (claimed_view worker id v))
  dead_view-IsBuried error v found = record {
    released = released-IsReleased worker id (burying id e error (claimed_view worker id v));
    described = ground (arith, ==_refl id);
    waiting = refl;
    stored = record {
      row = _;
      found = twice (claim_updates worker) (dead_updates error) v found;
      has_status = refl;
      has_attempt = refl;
    };
  }

  pub completed_view-IsCompleted :
      (v : View)
      → find_row id v.jobs ≡ some row
      → IsCompleted worker id row.attempt v
          (completed_view worker id t.completed_at (claimed_view worker id v))
  completed_view-IsCompleted v found = record {
    released =
        released-IsReleased worker id (completing id t.completed_at (claimed_view worker id v));
    described = ground (arith, ==_refl id);
    waiting = refl;
    stored = record {
      row = _;
      found = twice (claim_updates worker) completed_updates v found;
      has_status = refl;
      has_attempt = refl;
    };
  }

  module _ (srv : Server) (h : IsReliable srv) (w : srv.World) where
    abbrev before : View
    before = srv.view w

    abbrev ended : Result Outcome × srv.World
    ended = run srv (process_job cfg t worker claim) w

    abbrev on_error : Error → Program Outcome
    on_error = handle_failure cfg t worker id (some e)

    failed_run :
        (error : Error) {s : Result Outcome × View}
        → run_handler cfg t (some e) ≡ err error
        → play (handle_failure cfg t worker id (some e) error) (claimed_view worker id before) ≡ s
        → Agrees srv h ended s
    unfolding process_job
    failed_run error failed then_ = run-eq srv h _ w (
        play-try_catch (attempt_job cfg t worker claim) on_error before
        ∙ ap (caught on_error) (play-attempt_job cfg t worker claim before (err error) failed)
        ∙ then_)

    -- Against reliable services, and the heartbeats of the interval aside, let the handler of a claimed job with a row and an envelope
    -- throw, run out of time or be missing, members that `handlers` inherits included, while attempts remain. Then processJob schedules a
    -- retry: the job leaves the worker's list, its heartbeat is gone, its data counts one attempt
    -- more, its row is 'delayed' with that attempt, and the delayed set has it at the end of the
    -- backoff.
    pub process_job-retries :
        (error : Error)
        → run_handler cfg t (some e) ≡ err error
        → e.attempt < e.max_retries
        → find_row id before.jobs ≡ some row
        → (ended.0 ≡ ok (retry_in (delay_of cfg t e)))
          × IsRetried worker id (delay_of cfg t e) t.now e before (srv.view ended.1)
    process_job-retries error failed more found =
        let agrees =
          failed_run error failed (play-retry cfg t worker id e error _ (ground (arith, more))) in
        (
          agrees.0,
          subst (IsRetried worker id (delay_of cfg t e) t.now e before) (sym agrees.1)
              (retried_view-IsRetried error before found),
        )

    -- Against reliable services, and the heartbeats of the interval aside, let the handler of a claimed job with a row and an envelope
    -- throw, run out of time or be missing, members that `handlers` inherits included, when the attempts are used up. Then processJob gives
    -- the job up: it leaves the worker's list, its heartbeat and its data are gone, its row is
    -- 'dead' with one attempt more, and no retry is scheduled.
    pub process_job-gives_up :
        (error : Error)
        → run_handler cfg t (some e) ≡ err error
        → e.max_retries ≤ e.attempt
        → find_row id before.jobs ≡ some row
        → (ended.0 ≡ ok gave_up) × IsBuried worker id e before (srv.view ended.1)
    process_job-gives_up error failed no_more found =
        let agrees =
          failed_run error failed
            (play-give_up cfg t worker id e error _ (ground (arith, no_more))) in
        (
          agrees.0,
          subst (IsBuried worker id e before) (sym agrees.1)
              (dead_view-IsBuried error before found),
        )

    -- Against reliable services, and the heartbeats of the interval aside, let the handler of a claimed job with a row and an envelope
    -- return in time. Then processJob returns the handler's output, the job leaves the worker's
    -- list, its heartbeat and its data are gone, its row is 'completed' with the attempts it had,
    -- and no retry is scheduled.
    pub process_job-completes :
        (output : Output)
        → run_handler cfg t (some e) ≡ ok output
        → find_row id before.jobs ≡ some row
        → (ended.0 ≡ ok (completed_with output))
          × IsCompleted worker id row.attempt before (srv.view ended.1)
    unfolding process_job
    process_job-completes output returned found =
        let agrees = run-eq srv h _ w (
          play-try_catch (attempt_job cfg t worker claim) on_error before
          ∙ ap (caught on_error)
              (play-attempt_job cfg t worker claim before (ok output) returned)) in
        (
          agrees.0,
          subst (IsCompleted worker id row.attempt before) (sym agrees.1)
              (completed_view-IsCompleted before found),
        )
