-- ===== src/Queue/Expired.antt =====
-- enqueueJob of packages/server/src/lib/queue.js once Redis has dropped an idempotency key that the
-- unique index of packages/db/schema.sql still holds.
use distributed_job_queue.Base.{
  ℕ, ◌≡◌, ◌∙◌, true, Option, none, some, List, [], ◌∷◌, arith, if◌then◌else◌,
}
use distributed_job_queue.Job.{Row, unique_violation}
use distributed_job_queue.Store.Command.{idempotency}
use distributed_job_queue.Store.Program.{err}
use distributed_job_queue.Store.View.{View, violates, option_eq}
use distributed_job_queue.Store.Server.{Server, IsReliable, Agrees, run, play, run-eq}
use distributed_job_queue.Queue.{Config, Request, enqueue_job, create_job, new_row}
use distributed_job_queue.Queue.Enqueue.{play-insert_refused}
use distributed_job_queue.Queue.Dedupe.{play-enqueue_job_new}

-- The row that has the idempotency key.
abbrev pub find_by_key : ℕ → List Row → Option Row
find_by_key key [] = none
find_by_key key (r ∷ rs) =
    let rest = find_by_key key rs in if option_eq r.idempotency_key (some key) then some r else rest

find_by_key-violates :
    (key : ℕ) (n : Row) (rows : List Row) (old : Row)
    → n.idempotency_key ≡ some key
    → find_by_key key rows ≡ some old
    → violates n rows ≡ true
find_by_key-violates key n [] old e found = cc
find_by_key-violates key n (r ∷ rows) old e found =
    rw e (ground (arith, find_by_key-violates key n rows old e))

play-create_job_refused :
    (cfg : Config) (id now : ℕ) (req : Request) (v : View)
    → violates (new_row cfg id now req) v.jobs ≡ true
    → play (create_job cfg id now req) v ≡ (err unique_violation, v)
unfolding create_job
play-create_job_refused cfg id now req v old = play-insert_refused (new_row cfg id now req) _ v old

-- Against reliable services, let Redis no longer hold an idempotency key that a row in Postgres
-- has. Then a request with that key fails with the violation of the unique index, whatever else it
-- asks for, and changes nothing.
pub enqueue_job-expired_key :
    (srv : Server) (h : IsReliable srv) (cfg : Config) (id now key : ℕ) (req : Request) (old : Row)
    (w : srv.World)
    → req.idempotency_key ≡ some key
    → (srv.view w).strings (idempotency key) ≡ none
    → find_by_key key (srv.view w).jobs ≡ some old
    → Agrees srv h (run srv (enqueue_job cfg id now req) w) (err unique_violation, srv.view w)
unfolding new_row
enqueue_job-expired_key srv h cfg id now key req old w has_key fresh found =
    let v = srv.view w in
    run-eq srv h (enqueue_job cfg id now req) w (
      play-enqueue_job_new cfg id now req key v has_key fresh
      ∙ play-create_job_refused cfg id now req v
          (find_by_key-violates key (new_row cfg id now req) v.jobs old has_key found))
