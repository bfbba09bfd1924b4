-- ===== src/Custody/Threads.antt =====
-- The processes of packages/ that keep to the protocol: claiming, releasing, heartbeats, promotion,
-- cancelling and enqueueing.
use distributed_job_queue.Base.{ℕ, ◌+◌, true, false, Option, none, some, refl, List, [], ◌∷◌}
use distributed_job_queue.Job.{Priority, high, normal, low, Row, Envelope}
use distributed_job_queue.Store.Command.{
  hdel, zadd, heartbeats, processing, hset, lmove, blmove, queue,
}
use distributed_job_queue.Store.Program.{ok, err}
use distributed_job_queue.Store.Protocol.{
  Stays->>=, Stays, Stays-resume, Obeys-throw, Obeys-await, Obeys-ret, Obeys-last, Obeys-if, obeys,
  Obeys->>=, Obeys-for_each,
}
use distributed_job_queue.Custody.Protocol.{Obeys, custody}
use distributed_job_queue.Worker.Claim.{
  claim_from, claim_next_job, release_job, heartbeat, start_claim, move_job, priorities,
}
use distributed_job_queue.Queue
use distributed_job_queue.Queue.{
  Request, known_job, find_duplicate, remember_key, place, create_job, enqueue_job, new_row,
  withdraw, cancel_job, is_cancellable, to_envelope, promote_one, promote_due_delayed_jobs,
  push_promoted,
}

pub release_job-Obeys : (worker id : ℕ) (h : Option ℕ) → Obeys h (release_job worker id)
unfolding release_job
release_job-Obeys worker id h = Obeys-await _ _ _ tt λ n. Obeys-last _ (hdel heartbeats id) tt

pub heartbeat-Obeys : (id now : ℕ) (h : Option ℕ) → Obeys h (heartbeat id now)
unfolding heartbeat
heartbeat-Obeys id now h = Obeys-last h (hset heartbeats id now) tt

start_claim-Obeys :
    (now : ℕ) (p : Priority) (id : ℕ) (h : Option ℕ) → Obeys h (start_claim now p id)
unfolding start_claim
start_claim-Obeys now p id h = search obeys

move_job-Obeys :
    (worker seconds : ℕ) (p : Priority) (h : Option ℕ) → Obeys h (move_job worker seconds p)
unfolding move_job
move_job-Obeys worker seconds high h = Obeys-last h (lmove (queue high) (processing worker)) tt
move_job-Obeys worker seconds normal h = Obeys-last h (lmove (queue normal) (processing worker)) tt
move_job-Obeys worker seconds low h =
    Obeys-last h (blmove (queue low) (processing worker) seconds) tt

claim_from-Obeys :
    (worker now seconds : ℕ) (ps : List Priority) (h : Option ℕ)
    → Obeys h (claim_from worker now seconds ps)
unfolding claim_from
claim_from-Obeys worker now seconds [] h = Obeys-ret h none
claim_from-Obeys worker now seconds (p ∷ ps) h =
    Obeys->>= h (move_job worker seconds p) _ (move_job-Obeys worker seconds p h) (elim [
      | none ↦ λ j. claim_from-Obeys worker now seconds ps j
      | some i ↦ λ j. start_claim-Obeys now p i j
    ])

pub claim_next_job-Obeys :
    (worker now seconds : ℕ) (h : Option ℕ) → Obeys h (claim_next_job worker now seconds)
unfolding claim_next_job
claim_next_job-Obeys worker now seconds h = claim_from-Obeys worker now seconds priorities h

push_promoted-Obeys : (id : ℕ) (e : Envelope) (n : ℕ) → Obeys (some id) (push_promoted id e n)
unfolding push_promoted
push_promoted-Obeys id e n = Obeys-await _ _ _ refl λ _.
    Obeys-await _ _ _ tt
      λ _. Obeys-await _ _ _ tt λ _. Obeys-await _ _ _ tt λ _. Obeys-ret _ (n + 1)

promote_one-Obeys : (id n : ℕ) (h : Option ℕ) → Obeys h (promote_one id n)
unfolding promote_one
promote_one-Obeys id n h = Obeys-await _ _ _ tt (elim [
  | true ↦
      Obeys-await _ _ _ tt (elim [ none ↦ Obeys-ret _ n | some e ↦ push_promoted-Obeys id e n ])
  | false ↦ Obeys-ret h n
])

pub promote_due_delayed_jobs-Obeys :
    (now limit : ℕ) (h : Option ℕ) → Obeys h (promote_due_delayed_jobs now limit)
unfolding promote_due_delayed_jobs
promote_due_delayed_jobs-Obeys now limit h =
    Obeys-await _ _ _ tt λ due. Obeys-for_each h due 0 promote_one promote_one-Obeys

known_job-Stays : (h o : Option ℕ) → Stays custody h (known_job o)
known_job-Stays h none = tt
known_job-Stays h (some i) = (tt, λ r. refl, Stays-resume custody h)

find_duplicate-Stays : (h key : Option ℕ) → Stays custody h (find_duplicate key)
unfolding find_duplicate
find_duplicate-Stays h none = tt
find_duplicate-Stays h (some key) =
    (tt, λ r. refl, elim [ ok o ↦ known_job-Stays h o | err e ↦ tt ])

remember_key-Stays : (h key : Option ℕ) (id ttl : ℕ) → Stays custody h (remember_key key id ttl)
unfolding remember_key
remember_key-Stays h none id ttl = tt
remember_key-Stays h (some key) id ttl = (tt, λ r. refl, Stays-resume custody h)

place-Obeys : (t : Option ℕ) (p : Priority) (id : ℕ) → Obeys (some id) (place t p id)
unfolding place
place-Obeys none p id = Obeys-await _ _ _ refl λ _. Obeys-ret _ tt
place-Obeys (some t) p id = Obeys-last (some id) (zadd t id) refl

create_job-Obeys :
    (cfg : Queue.Config) (id now : ℕ) (req : Request) → Obeys (some id) (create_job cfg id now req)
unfolding create_job
create_job-Obeys cfg id now req = Obeys-await _ _ _ tt λ job. Obeys-await _ _ _ tt λ _.
    Stays->>= _ (remember_key req.idempotency_key id cfg.idempotency_ttl_seconds) _
      (remember_key-Stays _ req.idempotency_key id cfg.idempotency_ttl_seconds)
      λ _. Obeys-await _ _ _ tt λ _.
        Obeys->>= _
          (place (new_row cfg id now req).scheduled_for (new_row cfg id now req).priority id) _
          (place-Obeys (new_row cfg id now req).scheduled_for (new_row cfg id now req).priority id)
          λ _ j. Obeys-await _ _ _ tt λ _. Obeys-ret _ _

-- The id that is drawn for the new job is in the hand from the start.
pub enqueue_job-Obeys :
    (cfg : Queue.Config) (id now : ℕ) (req : Request) → Obeys (some id) (enqueue_job cfg id now req)
unfolding enqueue_job
enqueue_job-Obeys cfg id now req =
    Stays->>= _ (find_duplicate req.idempotency_key) _ (find_duplicate-Stays _ req.idempotency_key)
      (elim [ none ↦ create_job-Obeys cfg id now req | some job ↦ Obeys-ret _ _ ])

withdraw-Obeys : (id : ℕ) (job : Row) (h : Option ℕ) → Obeys h (withdraw id job)
unfolding withdraw
withdraw-Obeys id job h = Obeys-await _ _ _ tt λ _. Obeys-await _ _ _ tt λ _.
    Obeys-await _ _ _ tt λ _.
      Obeys-await _ _ _ tt
        λ updated. Obeys-await _ _ _ tt λ _. Obeys-await _ _ _ tt λ _. Obeys-ret _ updated

pub cancel_job-Obeys : (id : ℕ) (h : Option ℕ) → Obeys h (cancel_job id)
unfolding cancel_job
cancel_job-Obeys id h = Obeys-await _ _ _ tt (elim [
  | none ↦ Obeys-ret h none
  | some job ↦
      Obeys-if h (is_cancellable job.status) (λ _. withdraw-Obeys id job h) (λ _. Obeys-throw h _)
])
