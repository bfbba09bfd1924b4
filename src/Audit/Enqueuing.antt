-- ===== src/Audit/Enqueuing.antt =====
-- The operations of packages/server/src/lib/queue.js keep the audit log.
use distributed_job_queue.Base.{ℕ, refl, Option, none, some, true, false}
use distributed_job_queue.Job.{Priority, Row, Envelope}
use distributed_job_queue.Store.Command.{select_job, set_ex, idempotency, zadd}
use distributed_job_queue.Queue
use distributed_job_queue.Queue.{
  Request, find_duplicate, known_job, remember_key, place, new_row, create_job, enqueue_job,
  is_retryable, is_cancellable, push_updated, requeue, retry_job, withdraw, cancel_job,
  push_promoted, promote_one, promote_due_delayed_jobs,
}
use distributed_job_queue.Audit.{
  Audits, Audits-ret, Audits-throw, Audits-await, Audits-last, Audits-logged, Audits-if, Audits->>=,
  Audits-for_each,
}

find_duplicate-Audits : (key : Option ℕ) → Audits none (find_duplicate key)
unfolding find_duplicate
find_duplicate-Audits none = Audits-ret none
find_duplicate-Audits (some key) =
    Audits-await _ _ (elim [ none ↦ Audits-ret none | some id ↦ Audits-last (select_job id) refl ])

remember_key-Audits : (key : Option ℕ) (id ttl : ℕ) → Audits none (remember_key key id ttl)
unfolding remember_key
remember_key-Audits none id ttl = Audits-ret tt
remember_key-Audits (some key) id ttl = Audits-last (set_ex (idempotency key) id ttl) refl

place-Audits : (t : Option ℕ) (p : Priority) (id : ℕ) → Audits none (place t p id)
unfolding place
place-Audits none p id = Audits-await _ _ λ n. Audits-ret tt
place-Audits (some t) p id = Audits-last (zadd t id) refl

create_job-Audits :
    (cfg : Queue.Config) (id now : ℕ) (req : Request) → Audits none (create_job cfg id now req)
unfolding create_job new_row
create_job-Audits cfg id now req =
    let row = new_row cfg id now req in
    Audits-logged _ _ _ _ _ refl λ job.
      Audits->>= _ (remember_key req.idempotency_key id cfg.idempotency_ttl_seconds) _
        (remember_key-Audits req.idempotency_key id cfg.idempotency_ttl_seconds)
        λ _. Audits-await _ _ λ _.
          Audits->>= _ (place row.scheduled_for row.priority id) _
            (place-Audits row.scheduled_for row.priority id) λ _. Audits-await _ _ λ _. Audits-ret _

pub enqueue_job-Audits :
    (cfg : Queue.Config) (id now : ℕ) (req : Request) → Audits none (enqueue_job cfg id now req)
unfolding enqueue_job
enqueue_job-Audits cfg id now req =
    Audits->>= _ (find_duplicate req.idempotency_key) _ (find_duplicate-Audits req.idempotency_key)
      (elim [ none ↦ create_job-Audits cfg id now req | some job ↦ Audits-ret _ ])

push_updated-Audits : (id : ℕ) (updated : Option Row) → Audits none (push_updated id updated)
unfolding push_updated
push_updated-Audits id none = Audits-throw _
push_updated-Audits id (some row) =
    Audits-await _ _ λ _. Audits-await _ _ λ _. Audits-await _ _ λ _. Audits-ret _

pub retry_job-Audits : (id : ℕ) → Audits none (retry_job id)
unfolding retry_job requeue
retry_job-Audits id = Audits-await _ _ (elim [
  | none ↦ Audits-ret none
  | some job ↦
      Audits-if (is_retryable job.status) (Audits-logged _ _ _ _ _ refl (push_updated-Audits id))
        (Audits-throw _)
])

pub cancel_job-Audits : (id : ℕ) → Audits none (cancel_job id)
unfolding cancel_job withdraw
cancel_job-Audits id = Audits-await _ _ (elim [
  | none ↦ Audits-ret none
  | some job ↦
      Audits-if (is_cancellable job.status)
        (Audits-await _ _ λ _. Audits-await _ _ λ _.
          Audits-await _ _
            λ _. Audits-logged _ _ _ _ _ refl λ updated. Audits-await _ _ λ _. Audits-ret _)
        (Audits-throw _)
])

push_promoted-Audits : (id : ℕ) (e : Envelope) (n : ℕ) → Audits none (push_promoted id e n)
unfolding push_promoted
push_promoted-Audits id e n =
    Audits-await _ _ λ _. Audits-logged _ _ _ _ _ refl λ _. Audits-await _ _ λ _. Audits-ret _

promote_one-Audits : (id n : ℕ) → Audits none (promote_one id n)
unfolding promote_one
promote_one-Audits id n = Audits-await _ _ (elim [
  | true ↦ Audits-await _ _ (elim [ none ↦ Audits-ret n | some e ↦ push_promoted-Audits id e n ])
  | false ↦ Audits-ret n
])

pub promote_due_delayed_jobs-Audits :
    (now limit : ℕ) → Audits none (promote_due_delayed_jobs now limit)
unfolding promote_due_delayed_jobs
promote_due_delayed_jobs-Audits now limit =
    Audits-await _ _ λ due. Audits-for_each due 0 promote_one promote_one-Audits
