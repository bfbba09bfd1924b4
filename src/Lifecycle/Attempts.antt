-- ===== src/Lifecycle/Attempts.antt =====
-- One attempt of a job that is alone: it ends settled, or waiting for the next attempt.
use distributed_job_queue.Base.{
  ℕ, ◌+◌, ◌≤◌, ◌<◌, ◌≡◌, refl, ◌∙◌, ap, some, List, [], ◌∷◌, arith, leb, ==_refl, if◌then◌else◌,
  Bool-cases, inl, inr,
}
use distributed_job_queue.Job.{Row, Envelope, Error, completed, dead}
use distributed_job_queue.Store.Command.{ListKey, processing}
use distributed_job_queue.Store.Program.{Result, ok, err, Program, ret, ◌>>◌}
use distributed_job_queue.Store.View.{View, set_list, without, list_eq}
use distributed_job_queue.Store.Server.{play}
use distributed_job_queue.Store.Runs.{caught, play-try_catch}
use distributed_job_queue.Store.Triples.{Ends, Ends-at, Ends->>=, Ends-try_catch}
use distributed_job_queue.Worker.Claim.{Claimed}
use distributed_job_queue.Worker.Handlers.{Output}
use distributed_job_queue.Worker.Lane.{try_process}
use distributed_job_queue.Worker.Process.{
  Config, Readings, Outcome, run_handler, process_job, attempt_job, handle_failure,
}
use distributed_job_queue.Worker.Process.Final.{
  claimed_view, completed_view, retried_view, dead_view, delay_of, play-attempt_job, play-retry,
  play-give_up, attempted,
}
use distributed_job_queue.Worker.Process.Outcomes.{
  retried_view-IsRetried, dead_view-IsBuried, completed_view-IsCompleted,
}
use distributed_job_queue.Lifecycle.States.{IsWaiting, IsClaimed, IsSettled}

-- What an attempt leaves: nothing to do, or a wait for the next attempt.
pub data Left (cfg : Config) (t : Readings) (id : ℕ) (e : Envelope) (v : View) : Type 0 where
  settled : IsSettled id e.max_retries v → Left cfg t id e v
  waiting :
      e.attempt < e.max_retries
      → IsWaiting id (t.now + delay_of cfg t e) (record e { attempt = e.attempt + 1 }) v
      → Left cfg t id e v

-- Once the worker has let go of it, the job is in no list.
released-IsEmptied :
    (worker id : ℕ) (lists : ListKey → List ℕ)
    → ((k : ListKey) → lists k ≡ (if list_eq k (processing worker) then id ∷ [] else []))
    → (k : ListKey)
    → set_list (processing worker) (without id (lists (processing worker))) lists k ≡ []
released-IsEmptied worker id lists only k =
    ground (arith, only k, only (processing worker), ==_refl worker, ==_refl id)

module _ (cfg : Config) (t : Readings) (worker id : ℕ) (e : Envelope) (v : View)
    (c : IsClaimed worker id e v) (left : e.attempt ≤ e.max_retries) where
  abbrev claim : Claimed
  claim = record { id = id; priority = e.priority; envelope = some e }

  abbrev on_error : Error → Program Outcome
  on_error = handle_failure cfg t worker id (some e)

  abbrev row : Row
  row = c.stored.row

  -- processJob, once the handler has settled.
  process_by :
      (r : Result Output) {s : Result Outcome × View}
      → run_handler cfg t (some e) ≡ r
      → caught on_error (attempted t worker id (claimed_view worker id v) r) ≡ s
      → play (process_job cfg t worker claim) v ≡ s
  unfolding process_job
  process_by r e' then_ =
      play-try_catch (attempt_job cfg t worker claim) on_error v
      ∙ ap (caught on_error) (play-attempt_job cfg t worker claim v r e')
      ∙ then_

  completed-Left :
      Left cfg t id e (completed_view worker id t.completed_at (claimed_view worker id v))
  completed-Left =
      let done = completed_view-IsCompleted cfg t worker id e.priority e row v c.stored.found in
      settled (record {
        lists = released-IsEmptied worker id v.lists c.lists;
        set = c.set;
        described = done.described;
        status = completed;
        attempt = row.attempt;
        stored = done.stored;
        is_final = inl (refl, omega (arith, c.stored.has_attempt));
      })

  dead-Left :
      (error : Error)
      → e.max_retries < e.attempt + 1
      → Left cfg t id e (dead_view worker id e error (claimed_view worker id v))
  dead-Left error no_more =
      let done = dead_view-IsBuried cfg t worker id e.priority e row error v c.stored.found in
      settled (record {
        lists = released-IsEmptied worker id v.lists c.lists;
        set = c.set;
        described = done.described;
        status = dead;
        attempt = e.attempt + 1;
        stored = done.stored;
        is_final = inr (refl, omega arith);
      })

  retried-Left :
      (error : Error)
      → e.attempt < e.max_retries
      → Left cfg t id e (retried_view cfg t worker id e error (claimed_view worker id v))
  retried-Left error more =
      let done = retried_view-IsRetried cfg t worker id e.priority e row error v c.stored.found in
      waiting more (record {
        lists = released-IsEmptied worker id v.lists c.lists;
        set = done.waiting ∙ rw c.set refl;
        described = done.described;
        stored = done.stored;
      })

  process-Left :
      (r : Result Output)
      → run_handler cfg t (some e) ≡ r
      → Ends (λ _ u. Left cfg t id e u) (play (process_job cfg t worker claim) v)
  process-Left (ok x) settles = Ends-at _ _ (process_by (ok x) settles refl) completed-Left
  process-Left (err x) settles = elim (Bool-cases (leb (e.attempt + 1) e.max_retries)) [
    | inl more ↦
        Ends-at _ _
          (process_by (err x) settles
            (play-retry cfg t worker id e x (claimed_view worker id v) more))
          (retried-Left x (ground (arith, more)))
    | inr no_more ↦
        Ends-at _ _
          (process_by (err x) settles
            (play-give_up cfg t worker id e x (claimed_view worker id v) no_more))
          (dead-Left x (ground (arith, no_more)))
  ]

  -- However the handler settles.
  pub attempt-Left :
      Ends (λ _ u. Left cfg t id e u) (play (try_process cfg worker t (some claim)) v)
  unfolding try_process
  attempt-Left =
      Ends-try_catch (process_job cfg t worker claim >> ret tt) (λ _. ret tt) v
        (Ends->>= (process_job cfg t worker claim) (λ _. ret tt) v
          (process-Left (run_handler cfg t (some e)) refl) (λ o u l. Ends-at tt u refl l))
