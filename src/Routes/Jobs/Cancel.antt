-- ===== src/Routes/Jobs/Cancel.antt =====
-- DELETE /jobs/:id of packages/server/src/routes/jobs.js, with cancelJob, on every branch.
use distributed_job_queue.Base.{
  ℕ, ◌≡◌, refl, ◌∙◌, ap, Bool, true, false, Option, none, some, List, [], ◌∷◌, ◌++◌, if◌then◌else◌,
}
use mathlib.Core.Option
use distributed_job_queue.Job.{Row, LogEntry, failed, cancelled_by_operator, invalid_state}
use distributed_job_queue.Store.Command.{queue, Assign, set_status, set_error}
use distributed_job_queue.Store.Program.{Result, ok, err, Program, ret, throw, ◌>>=◌}
use distributed_job_queue.Store.View.{
  View, set_list, set_at, unscheduled, without, find_row, update_rows, assign,
}
use distributed_job_queue.Store.Server.{Server, IsReliable, Agrees, run, play, run-eq}
use distributed_job_queue.Queue.{cancel_job, withdraw, is_cancellable}
use distributed_job_queue.Routes.Response.{
  Response, job_body, not_found, invalid_state_error, serialize_job,
}
use distributed_job_queue.Routes.Jobs.{delete_job, send_job, on_invalid_state}
use distributed_job_queue.Store.Runs.{caught, play-try_catch, continued, play->>=}

abbrev cancellation : List Assign
cancellation = set_status failed ∷ set_error (some cancelled_by_operator) ∷ []

abbrev logged : ℕ → LogEntry
logged id = record { job_id = id; status = failed; message = cancelled_by_operator }

-- The job out of its queue, the delayed set and the data; its row 'failed'; logged and published.
abbrev pub cancelled_view : ℕ → Row → View → View
cancelled_view id job v = record v {
  lists = set_list (queue job.priority) (without id (v.lists (queue job.priority))) v.lists;
  delayed_set = unscheduled id v.delayed_set;
  envelopes = set_at id none v.envelopes;
  jobs = update_rows id cancellation v.jobs;
  events = v.events ++ logged id ∷ [];
  published = logged id ∷ v.published;
}

abbrev cancelled_if : Bool → ℕ → Row → View → Result (Option Row) × View
cancelled_if b id job v =
    if b
    then (ok (some (assign cancellation job)), cancelled_view id job v)
    else (err (invalid_state id job.status), v)

abbrev cancelled : ℕ → View → Option Row → Result (Option Row) × View
cancelled id v none = (ok none, v)
cancelled id v (some job) = cancelled_if (is_cancellable job.status) id job v

abbrev cancelling : ℕ → Option Row → Program (Option Row)
cancelling id o = elim o [
  | none ↦ ret none
  | some job ↦
      if is_cancellable job.status then withdraw id job else throw (invalid_state id job.status)
]

module _ (id : ℕ) (v : View) where
  play-withdraw_if :
      (job : Row) (b : Bool)
      → find_row id v.jobs ≡ some job
      → play (if b then withdraw id job else throw (invalid_state id job.status)) v
        ≡ cancelled_if b id job v
  unfolding withdraw
  play-withdraw_if job true found =
      ap (λ o. (ok (Option.map (assign cancellation) o), cancelled_view id job v)) found
  play-withdraw_if job false found = refl

  play-cancelling :
      (o : Option Row) → find_row id v.jobs ≡ o → play (cancelling id o) v ≡ cancelled id v o
  play-cancelling none found = refl
  play-cancelling (some job) found = play-withdraw_if job (is_cancellable job.status) found

  play-cancel_job : play (cancel_job id) v ≡ cancelled id v (find_row id v.jobs)
  unfolding cancel_job
  play-cancel_job = play-cancelling (find_row id v.jobs) refl

abbrev answered_if : Bool → ℕ → Row → View → Result Response × View
answered_if b id job v =
    if b
    then (
      ok (record { code = 200; body = job_body (serialize_job (assign cancellation job)) }),
      cancelled_view id job v,
    )
    else (ok (record { code = 409; body = invalid_state_error (invalid_state id job.status) }), v)

-- What a DELETE should answer and leave, by the row that Postgres has.
abbrev pub answered : ℕ → View → Option Row → Result Response × View
answered id v none = (ok (record { code = 404; body = not_found }), v)
answered id v (some job) = answered_if (is_cancellable job.status) id job v

module _ (id : ℕ) (v : View) where
  respond_if :
      (b : Bool) (job : Row)
      → caught on_invalid_state (continued send_job (cancelled_if b id job v))
        ≡ answered_if b id job v
  unfolding send_job on_invalid_state
  respond_if true job = refl
  respond_if false job = refl

  respond :
      (o : Option Row)
      → caught on_invalid_state (continued send_job (cancelled id v o)) ≡ answered id v o
  unfolding send_job on_invalid_state
  respond none = refl
  respond (some job) = respond_if (is_cancellable job.status) job

-- Against reliable services DELETE /jobs/:id answers 404 if there is no such job, 409 if it is
-- neither queued nor delayed, and then nothing has changed; otherwise it answers 200 with the job
-- 'failed', and the job is out of its queue, out of the delayed set and out of the job data, its row
-- is 'failed', and that is logged and published.
pub delete_job-answered :
    (srv : Server) (h : IsReliable srv) (id : ℕ) (w : srv.World)
    → Agrees srv h
        (run srv (delete_job id) w)
        (answered id (srv.view w) (find_row id (srv.view w).jobs))
unfolding delete_job
delete_job-answered srv h id w =
    let v = srv.view w in
    run-eq srv h (delete_job id) w (
      play-try_catch (cancel_job id >>= send_job) on_invalid_state v
      ∙ ap (caught on_invalid_state)
          (play->>= (cancel_job id) send_job v ∙ ap (continued send_job) (play-cancel_job id v))
      ∙ respond id v (find_row id v.jobs))
