-- ===== src/Queue/Stored.antt =====
-- FR-1 of packages/server/src/lib/queue.js: a job is in Postgres before anything else knows of it.
use distributed_job_queue.Base.{ℕ, ◌≡◌, refl, Option, none, some}
use distributed_job_queue.Job.{Priority}
use distributed_job_queue.Store.Command.{
  Command, Reply, lpush, zadd, hset, job_data, publish, set_ex, insert_job,
}
use distributed_job_queue.Store.Program.{Result, ok, err}
use distributed_job_queue.Store.Server.{Server}
use distributed_job_queue.Store.Protocol.{
  Protocol, Follows, trace, trace-Follows, Stays, Stays-resume, Stays->>=, Obeys, Obeys-await,
  Obeys-ret,
}
use distributed_job_queue.Queue.{
  Config, Request, enqueue_job, create_job, find_duplicate, remember_key, known_job, place, new_row,
}

abbrev stored_by : Option ℕ → (c : Command) → Result (Reply c) → Option ℕ
stored_by h (insert_job r) (ok x) = some r.id
stored_by h c r = h

abbrev NeedsStored : Option ℕ → Command → Type 0
NeedsStored h (lpush k i) = h ≡ some i
NeedsStored h (zadd s i) = h ≡ some i
NeedsStored h (hset job_data i e) = h ≡ some i
NeedsStored h (publish e) = h ≡ some e.job_id
NeedsStored h (set_ex k i s) = h ≡ some i
NeedsStored h c = Unit

-- The state is the job that Postgres has confirmed. Its pushes, its data entry, its events and its
-- idempotency key need that confirmation.
abbrev pub stored_first : Protocol
stored_first = record { State = Option ℕ; next = stored_by; Permits = NeedsStored }

remember_key-Stays :
    (key : Option ℕ) (id ttl : ℕ) → Stays stored_first (some id) (remember_key key id ttl)
unfolding remember_key
remember_key-Stays none id ttl = tt
remember_key-Stays (some key) id ttl = (refl, λ r. refl, Stays-resume stored_first (some id))

place-Stays : (t : Option ℕ) (p : Priority) (id : ℕ) → Stays stored_first (some id) (place t p id)
unfolding place
place-Stays none p id = (refl, λ r. refl, elim [ ok n ↦ tt | err e ↦ tt ])
place-Stays (some t) p id = (refl, λ r. refl, Stays-resume stored_first (some id))

create_job-Obeys :
    (cfg : Config) (id now : ℕ) (req : Request)
    → Obeys stored_first none (create_job cfg id now req)
unfolding create_job
create_job-Obeys cfg id now req =
    let row = new_row cfg id now req in
    Obeys-await _ _ _ tt λ job. Obeys-await _ _ _ tt λ _.
      Stays->>= _ (remember_key req.idempotency_key id cfg.idempotency_ttl_seconds) _
        (remember_key-Stays req.idempotency_key id cfg.idempotency_ttl_seconds)
        λ _. Obeys-await _ _ _ refl λ _.
          Stays->>= _ (place row.scheduled_for row.priority id) _
            (place-Stays row.scheduled_for row.priority id)
            λ _. Obeys-await _ _ _ refl λ _. Obeys-ret _ _

known_job-Stays : (o : Option ℕ) → Stays stored_first none (known_job o)
known_job-Stays none = tt
known_job-Stays (some i) = (tt, λ r. refl, Stays-resume stored_first none)

find_duplicate-Stays : (key : Option ℕ) → Stays stored_first none (find_duplicate key)
unfolding find_duplicate
find_duplicate-Stays none = tt
find_duplicate-Stays (some key) = (tt, λ r. refl, elim [ ok o ↦ known_job-Stays o | err e ↦ tt ])

-- Whatever the services answer and wherever the run breaks off, enqueueJob pushes a job, writes its
-- data entry, publishes its event and stores its idempotency key only after Postgres has confirmed
-- the row with that id.
pub enqueue_job-stored_first :
    (srv : Server) (cfg : Config) (id now : ℕ) (req : Request) (w : srv.World)
    → Follows stored_first none (trace srv (enqueue_job cfg id now req) w)
unfolding enqueue_job
enqueue_job-stored_first srv cfg id now req w =
    trace-Follows srv none (enqueue_job cfg id now req) w (
      Stays->>= _ (find_duplicate req.idempotency_key) _ (find_duplicate-Stays req.idempotency_key)
        (elim [ none ↦ create_job-Obeys cfg id now req | some job ↦ Obeys-ret _ _ ]))
