-- ===== src/Routes/Jobs/Retry.antt =====
-- POST /jobs/:id/retry of packages/server/src/routes/jobs.js, with retryJob, on every branch.
use distributed_job_queue.Base.{
  ℕ, ◌≡◌, refl, ◌∙◌, ap, Bool, true, false, Option, none, some, List, [], ◌∷◌, ◌++◌, if◌then◌else◌,
}
use mathlib.Core.Option
use distributed_job_queue.Job.{Row, LogEntry, queued, requeued_by_operator, invalid_state}
use distributed_job_queue.Store.Command.{queue, Assign, set_status, set_error, set_worker}
use distributed_job_queue.Store.Program.{Result, ok, err, Program, ret, throw, ◌>>=◌}
use distributed_job_queue.Store.View.{View, set_list, set_at, find_row, update_rows, assign}
use distributed_job_queue.Store.Server.{Server, IsReliable, Agrees, run, play, run-eq}
use distributed_job_queue.Store.Runs.{caught, play-try_catch, continued, play->>=}
use distributed_job_queue.Queue.{retry_job, requeue, push_updated, is_retryable, to_envelope}
use distributed_job_queue.Routes.Response.{
  Response, job_body, not_found, invalid_state_error, serialize_job,
}
use distributed_job_queue.Routes.Jobs.{post_retry, send_job, on_invalid_state}

abbrev pub renewal : List Assign
renewal = set_status queued ∷ set_error none ∷ set_worker none ∷ []

abbrev logged : ℕ → LogEntry
logged id = record { job_id = id; status = queued; message = requeued_by_operator }

abbrev renewed_rows : ℕ → View → View
renewed_rows id v = record v {
  jobs = update_rows id renewal v.jobs;
  events = v.events ++ logged id ∷ [];
}

-- The job at the left of its queue, its data written again, its row 'queued'; logged and published.
abbrev pub requeued_view : ℕ → Row → View → View
requeued_view id job v = record v {
  lists = set_list (queue job.priority) (id ∷ v.lists (queue job.priority)) v.lists;
  envelopes = set_at id (some (to_envelope (assign renewal job))) v.envelopes;
  jobs = update_rows id renewal v.jobs;
  events = v.events ++ logged id ∷ [];
  published = logged id ∷ v.published;
}

abbrev requeued_if : Bool → ℕ → Row → View → Result (Option Row) × View
requeued_if b id job v =
    if b
    then (ok (some (assign renewal job)), requeued_view id job v)
    else (err (invalid_state id job.status), v)

abbrev requeued : ℕ → View → Option Row → Result (Option Row) × View
requeued id v none = (ok none, v)
requeued id v (some job) = requeued_if (is_retryable job.status) id job v

abbrev pub answered_if : Bool → ℕ → Row → View → Result Response × View
answered_if b id job v =
    if b
    then (
      ok (record { code = 200; body = job_body (serialize_job (assign renewal job)) }),
      requeued_view id job v,
    )
    else (ok (record { code = 409; body = invalid_state_error (invalid_state id job.status) }), v)

-- What the request should be answered and leave, by the row that Postgres has.
abbrev pub answered : ℕ → View → Option Row → Result Response × View
answered id v none = (ok (record { code = 404; body = not_found }), v)
answered id v (some job) = answered_if (is_retryable job.status) id job v

module _ (id : ℕ) (v : View) where
  abbrev requeuing : Option Row → Program (Option Row)
  requeuing o = elim o [
    | none ↦ ret none
    | some job ↦ if is_retryable job.status then requeue id else throw (invalid_state id job.status)
  ]

  play-requeue_if :
      (job : Row) (b : Bool)
      → find_row id v.jobs ≡ some job
      → play (if b then requeue id else throw (invalid_state id job.status)) v
        ≡ requeued_if b id job v
  unfolding requeue push_updated
  play-requeue_if job true found =
      ap (λ o. play (push_updated id (Option.map (assign renewal) o)) (renewed_rows id v)) found
  play-requeue_if job false found = refl

  play-requeuing :
      (o : Option Row) → find_row id v.jobs ≡ o → play (requeuing o) v ≡ requeued id v o
  play-requeuing none found = refl
  play-requeuing (some job) found = play-requeue_if job (is_retryable job.status) found

  play-retry_job : play (retry_job id) v ≡ requeued id v (find_row id v.jobs)
  unfolding retry_job
  play-retry_job = play-requeuing (find_row id v.jobs) refl

  respond_if :
      (b : Bool) (job : Row)
      → caught on_invalid_state (continued send_job (requeued_if b id job v))
        ≡ answered_if b id job v
  unfolding send_job on_invalid_state
  respond_if true job = refl
  respond_if false job = refl

  respond :
      (o : Option Row)
      → caught on_invalid_state (continued send_job (requeued id v o)) ≡ answered id v o
  unfolding send_job on_invalid_state
  respond none = refl
  respond (some job) = respond_if (is_retryable job.status) job

  pub play-post_retry : play (post_retry id) v ≡ answered id v (find_row id v.jobs)
  unfolding post_retry
  play-post_retry =
      play-try_catch (retry_job id >>= send_job) on_invalid_state v
      ∙ ap (caught on_invalid_state)
          (play->>= (retry_job id) send_job v ∙ ap (continued send_job) play-retry_job)
      ∙ respond (find_row id v.jobs)

-- Against reliable services POST /jobs/:id/retry answers 404 if there is no such job, 409 if it is
-- neither dead nor failed, and then nothing has changed; otherwise it answers 200 with the job
-- 'queued', without error and worker, and the job stands last in line in the queue of its
-- priority, its data are written again, its row is 'queued', and that is logged and published.
pub post_retry-answered :
    (srv : Server) (h : IsReliable srv) (id : ℕ) (w : srv.World)
    → Agrees srv h
        (run srv (post_retry id) w)
        (answered id (srv.view w) (find_row id (srv.view w).jobs))
post_retry-answered srv h id w = run-eq srv h (post_retry id) w (play-post_retry id (srv.view w))
