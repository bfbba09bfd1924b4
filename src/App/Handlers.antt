-- ===== src/App/Handlers.antt =====
-- What every handler behind the hooks of packages/server/src/app.js keeps to: it leaves the buckets of the
-- rate limiter alone, and answers with a code of its own.
use distributed_job_queue.Base.{
  ℕ, ◌≡◌, refl, String, Bool, true, false, ◌||◌, Option, none, some, zero, suc, ◌==◌, if◌then◌else◌,
}
use distributed_job_queue.Payload.{Json}
use distributed_job_queue.Job.{Row, Priority, Status, Definition, Error, invalid_state}
use distributed_job_queue.Store.Command.{
  Command, eval_bucket, select_job, set_ex, idempotency, zadd, set_enabled,
}
use distributed_job_queue.Store.Program.{Program, ret, await, ◌>>=◌, try_catch}
use distributed_job_queue.Store.Ensures.{
  Ensures, Anything, Ensures-ret, Ensures-throw, Ensures-await, Ensures-last, Ensures-if,
  Ensures-try_catch, Ensures->>=, ensures,
}
use distributed_job_queue.Queue
use distributed_job_queue.Queue.{
  Request, get_job_by_id, get_job_events, log_event, publish_event, known_job, find_duplicate,
  remember_key, place, new_row, create_job, enqueue_job, list_jobs, is_retryable, is_cancellable,
  push_updated, requeue, retry_job, withdraw, cancel_job,
}
use distributed_job_queue.Queue.Stats.{Quotient, get_queue_stats}
use distributed_job_queue.Routes.Response.{Response, validation_error}
use distributed_job_queue.Routes.Jobs.{
  post_job, get_job, get_jobs, send_job, on_invalid_state, post_retry, delete_job,
}
use distributed_job_queue.Routes.Schedules.{
  enabled_of, send_schedule, send_deleted, post_schedule, get_schedules, patch_schedule,
  delete_schedule,
}
use distributed_job_queue.App.{
  Config, Endpoint, post_jobs, job_by_id, jobs_page, retry_by_id, delete_by_id, post_schedules,
  schedules, patch_by_id, delete_schedule_by_id, queues_stats, handle, get_stats,
}

-- Every command but the limiter's.
abbrev pub IsPlain : Command → Type 0
IsPlain (eval_bucket key capacity now) = ⊥
IsPlain _ = Unit

abbrev IsCalm : {A : Type 0} → Program A → Type 0
IsCalm p = Ensures IsPlain Anything p

find_duplicate-IsCalm : (key : Option ℕ) → IsCalm (find_duplicate key)
unfolding find_duplicate
find_duplicate-IsCalm none = search ensures
find_duplicate-IsCalm (some key) =
    Ensures-await _ _ tt
      (elim [ none ↦ search ensures | some id ↦ Ensures-last (select_job id) tt ])

remember_key-IsCalm : (key : Option ℕ) (id ttl : ℕ) → IsCalm (remember_key key id ttl)
unfolding remember_key
remember_key-IsCalm none id ttl = search ensures
remember_key-IsCalm (some key) id ttl = Ensures-last (set_ex (idempotency key) id ttl) tt

place-IsCalm : (t : Option ℕ) (p : Priority) (id : ℕ) → IsCalm (place t p id)
unfolding place
place-IsCalm none p id = search ensures
place-IsCalm (some t) p id = Ensures-last (zadd t id) tt

create_job-IsCalm :
    (cfg : Queue.Config) (id now : ℕ) (req : Request) → IsCalm (create_job cfg id now req)
unfolding create_job log_event publish_event
create_job-IsCalm cfg id now req =
    let row = new_row cfg id now req in
    Ensures-await _ _ tt λ job. Ensures-await _ _ tt λ _.
      Ensures->>= _ _ (remember_key-IsCalm req.idempotency_key id cfg.idempotency_ttl_seconds) λ _.
        Ensures-await _ _ tt λ _.
          Ensures->>= _ _ (place-IsCalm row.scheduled_for row.priority id)
            λ _. Ensures-await _ _ tt λ _. Ensures-ret _ tt

enqueue_job-IsCalm :
    (cfg : Queue.Config) (id now : ℕ) (req : Request) → IsCalm (enqueue_job cfg id now req)
unfolding enqueue_job
enqueue_job-IsCalm cfg id now req =
    Ensures->>= _ _ (find_duplicate-IsCalm req.idempotency_key)
      (elim [ none ↦ create_job-IsCalm cfg id now req | some job ↦ Ensures-ret _ tt ])

push_updated-IsCalm : (id : ℕ) (o : Option Row) → IsCalm (push_updated id o)
unfolding push_updated publish_event
push_updated-IsCalm id none = search ensures
push_updated-IsCalm id (some job) =
    Ensures-await _ _ tt λ _. Ensures-await _ _ tt λ _. Ensures-await _ _ tt λ _. Ensures-ret _ tt

requeue-IsCalm : (id : ℕ) → IsCalm (requeue id)
unfolding requeue log_event
requeue-IsCalm id = Ensures-await _ _ tt λ o. Ensures-await _ _ tt λ _. push_updated-IsCalm id o

retry_job-IsCalm : (id : ℕ) → IsCalm (retry_job id)
unfolding retry_job get_job_by_id
retry_job-IsCalm id = Ensures-await _ _ tt (elim [
  | none ↦ search ensures
  | some job ↦ Ensures-if (is_retryable job.status) _ _ (requeue-IsCalm id) (Ensures-throw _)
])

withdraw-IsCalm : (id : ℕ) (job : Row) → IsCalm (withdraw id job)
unfolding withdraw log_event publish_event
withdraw-IsCalm id job = Ensures-await _ _ tt λ _. Ensures-await _ _ tt λ _.
    Ensures-await _ _ tt λ _.
      Ensures-await _ _ tt λ _. Ensures-await _ _ tt λ _. Ensures-await _ _ tt λ _. Ensures-ret _ tt

cancel_job-IsCalm : (id : ℕ) → IsCalm (cancel_job id)
unfolding cancel_job get_job_by_id
cancel_job-IsCalm id = Ensures-await _ _ tt (elim [
  | none ↦ search ensures
  | some job ↦ Ensures-if (is_cancellable job.status) _ _ (withdraw-IsCalm id job) (Ensures-throw _)
])

list_jobs-IsCalm :
    (status : Option Status) (type : Option String) (page page_size : ℕ)
    → IsCalm (list_jobs status type page page_size)
unfolding list_jobs
list_jobs-IsCalm status type page page_size =
    Ensures-await _ _ tt λ rows. Ensures-await _ _ tt λ total. Ensures-ret _ tt

get_queue_stats-IsCalm : (quotient : Quotient) (now : ℕ) → IsCalm (get_queue_stats quotient now)
unfolding get_queue_stats
get_queue_stats-IsCalm quotient now = Ensures-await _ _ tt λ _. Ensures-await _ _ tt λ _.
    Ensures-await _ _ tt λ _. Ensures-await _ _ tt λ _.
      Ensures-await _ _ tt λ _. Ensures-await _ _ tt λ _. Ensures-await _ _ tt λ _. Ensures-ret _ tt

-- The codes of the handlers' own answers.
abbrev pub is_own : ℕ → Bool
is_own code = code == 200 || code == 201 || code == 204 || code == 400 || code == 404 || code == 409

abbrev pub IsOwn : Response → Type 0
IsOwn r = is_own r.code ≡ true

abbrev IsServing : Program Response → Type 0
IsServing p = Ensures IsPlain IsOwn p

post_job-IsServing :
    (cfg : Queue.Config) (id now : ℕ) (req : Request) → IsServing (post_job cfg id now req)
unfolding post_job
post_job-IsServing cfg id now req =
    Ensures->>= _ _ (enqueue_job-IsCalm cfg id now req)
      λ r. Ensures-ret _ (created_or_known r.deduped)
  where
    created_or_known : (b : Bool) → is_own (if b then 200 else 201) ≡ true
    created_or_known true = refl
    created_or_known false = refl

get_job-IsServing : (id : ℕ) → IsServing (get_job id)
unfolding get_job get_job_by_id get_job_events
get_job-IsServing id = Ensures-await _ _ tt (elim [
  | none ↦ Ensures-ret _ refl
  | some job ↦ Ensures-await _ _ tt λ events. Ensures-ret _ refl
])

get_jobs-IsServing :
    (status : Option Status) (type : Option String) (page page_size : ℕ)
    → IsServing (get_jobs status type page page_size)
unfolding get_jobs
get_jobs-IsServing status type page page_size =
    Ensures->>= _ _ (list_jobs-IsCalm status type page page_size) λ r. Ensures-ret _ refl

send_job-IsServing : (o : Option Row) → IsServing (send_job o)
unfolding send_job
send_job-IsServing none = Ensures-ret _ refl
send_job-IsServing (some job) = Ensures-ret _ refl

on_invalid_state-IsServing : (e : Error) → IsServing (on_invalid_state e)
unfolding on_invalid_state
on_invalid_state-IsServing (invalid_state id status) = Ensures-ret _ refl
on_invalid_state-IsServing e = Ensures-throw _

changed-IsServing :
    (m : Program (Option Row)) → IsCalm m → IsServing (try_catch (m >>= send_job) on_invalid_state)
changed-IsServing m calm =
    Ensures-try_catch _ _ (Ensures->>= m send_job calm send_job-IsServing)
      on_invalid_state-IsServing

send_schedule-IsServing : (o : Option Definition) → IsServing (send_schedule o)
unfolding send_schedule
send_schedule-IsServing none = Ensures-ret _ refl
send_schedule-IsServing (some row) = Ensures-ret _ refl

patch_schedule-IsServing : (id : ℕ) (body : Option Json) → IsServing (patch_schedule id body)
unfolding patch_schedule
patch_schedule-IsServing id body = enabled-IsServing (enabled_of body)
  where
    enabled-IsServing :
        (o : Option Bool)
        → IsServing (elim o [
          | none ↦ ret (record { code = 400; body = validation_error })
          | some enabled ↦ await (set_enabled enabled id) >>= send_schedule
        ])
    enabled-IsServing none = Ensures-ret _ refl
    enabled-IsServing (some enabled) = Ensures-await _ _ tt send_schedule-IsServing

sent_deleted : (n : ℕ) → IsOwn (send_deleted n)
sent_deleted zero = refl
sent_deleted (suc n) = refl

-- Whatever the services answer, a handler behind the hooks sends no command of the rate limiter and ends
-- in an exception or with one of the codes 200, 201, 204, 400, 404 and 409.
pub handle-IsServing : (cfg : Config) (e : Endpoint) → Ensures IsPlain IsOwn (handle cfg e)
unfolding handle post_retry delete_job post_schedule get_schedules delete_schedule get_stats
handle-IsServing cfg (post_jobs id now req) = post_job-IsServing cfg.queue id now req
handle-IsServing cfg (job_by_id id) = get_job-IsServing id
handle-IsServing cfg (jobs_page status type page page_size) =
    get_jobs-IsServing status type page page_size
handle-IsServing cfg (retry_by_id id) = changed-IsServing (retry_job id) (retry_job-IsCalm id)
handle-IsServing cfg (delete_by_id id) = changed-IsServing (cancel_job id) (cancel_job-IsCalm id)
handle-IsServing cfg (post_schedules id req) = Ensures-await _ _ tt λ row. Ensures-ret _ refl
handle-IsServing cfg schedules = Ensures-await _ _ tt λ rows. Ensures-ret _ refl
handle-IsServing cfg (patch_by_id id body) = patch_schedule-IsServing id body
handle-IsServing cfg (delete_schedule_by_id id) =
    Ensures-await _ _ tt λ n. Ensures-ret _ (sent_deleted n)
handle-IsServing cfg (queues_stats now) =
    Ensures->>= _ _ (get_queue_stats-IsCalm cfg.quotient now) λ stats. Ensures-ret _ refl
