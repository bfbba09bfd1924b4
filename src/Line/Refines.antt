-- ===== src/Line/Refines.antt =====
-- The processes of packages/server and packages/worker, one after the other, serve the lines.
use distributed_job_queue.Base.{
  ℕ, ◌≡◌, refl, sym, ap, ◌∙◌, subst, false, Option, none, some, List, [], ◌∷◌, ◌++◌,
}
use distributed_job_queue.Job.{Priority}
use distributed_job_queue.Store.Program.{Result, ok, Program, ret, ◌>>=◌, ◌>>◌}
use distributed_job_queue.Store.View.{View, violates}
use distributed_job_queue.Store.Server.{Server, IsReliable, run, play, run-play}
use distributed_job_queue.Store.Runs.{continued, play->>=}
use distributed_job_queue.Queue.{Config, Request, enqueue_job, new_row}
use distributed_job_queue.Queue.Enqueue.{created, play-create_job}
use distributed_job_queue.Queue.Dedupe.{play-enqueue_job_keyless}
use distributed_job_queue.Worker.Claim.{Claimed, claim_next_job, release_job, heartbeat}
use distributed_job_queue.Worker.Claim.Order.{after_claim, play-claim_next_job}
use distributed_job_queue.Line.{Line, arrive, next_up, leave}
use distributed_job_queue.Line.Steps.{
  IsLine, first_in_line-next_up, after_claim-IsLine, created-IsLine,
}

-- What a server or a worker does next.
pub data Op : Type 0 where
  enqueues : Config → (id now : ℕ) → Request → Op
  claims : (worker now seconds : ℕ) → Op
  releases : (worker id : ℕ) → Op
  beats : (id now : ℕ) → Op

abbrev Served : Type 0
Served = List (Option (Priority × ℕ))

abbrev job_of : Option Claimed → Served
job_of none = none ∷ []
job_of (some c) = some (c.priority, c.id) ∷ []

-- The code of an operation, with what a claim returned.
unfoldable pub perform : Op → Program Served
perform (enqueues cfg id now req) = enqueue_job cfg id now req >> ret []
perform (claims worker now seconds) = claim_next_job worker now seconds >>= λ c. ret (job_of c)
perform (releases worker id) = release_job worker id >> ret []
perform (beats id now) = heartbeat id now >> ret []

unfoldable pub perform_all : List Op → Program Served
unfolding perform
perform_all [] = ret []
perform_all (op ∷ ops) = do served ← perform op; rest ← perform_all ops; ret (served ++ rest)

-- What the lines alone make of the operations.
unfoldable pub serve : List Op → Line → Served × Line
serve [] line = ([], line)
serve (enqueues cfg id now req ∷ ops) line =
    serve ops (arrive (new_row cfg id now req).priority id line)
serve (claims worker now seconds ∷ ops) line =
    let (rest, last) = serve ops (leave (next_up line) line) in (next_up line ∷ rest, last)
serve (releases worker id ∷ ops) line = serve ops line
serve (beats id now ∷ ops) line = serve ops line

-- The job has no idempotency key and no delay, and Postgres takes its row.
abbrev pub IsPlainJob : Op → View → Type 0
IsPlainJob (enqueues cfg id now req) v =
    (req.idempotency_key ≡ none)
    × ((new_row cfg id now req).scheduled_for ≡ none)
    × (violates (new_row cfg id now req) v.jobs ≡ false)
IsPlainJob _ v = Unit

abbrev pub ArePlainJobs : List Op → View → Type 0
ArePlainJobs [] v = Unit
ArePlainJobs (op ∷ ops) v = IsPlainJob op v × ArePlainJobs ops (play (perform op) v).1

abbrev Serves : Served × Line → Result Served × View → Type 0
Serves spec ended = (ended.0 ≡ ok spec.0) × IsLine ended.1 spec.1

continued-ok :
    {A B : Type 0} (f : A → Program B) (ended : Result A × View) (a : A)
    → ended.0 ≡ ok a
    → continued f ended ≡ play (f a) ended.1
continued-ok f ended a e = ap (λ r. continued f (r, ended.1)) e

module _ (v : View) (line : Line) (is_line : IsLine v line) where
  enqueued :
      (cfg : Config) (id now : ℕ) (req : Request)
      → IsPlainJob (enqueues cfg id now req) v
      → Serves
          ([], arrive (new_row cfg id now req).priority id line)
          (play (perform (enqueues cfg id now req)) v)
  unfolding perform new_row
  enqueued cfg id now req plain =
      let row = new_row cfg id now req in
      let ran : play (enqueue_job cfg id now req >> ret []) v ≡ (ok [], created row v) =
        play->>= (enqueue_job cfg id now req) (λ _. ret []) v
        ∙ ap (continued (λ _. ret [])) (
            play-enqueue_job_keyless cfg id now req v plain.0
            ∙ play-create_job cfg id now req v plain.2) in
      subst (Serves ([], arrive row.priority id line)) (sym ran)
        (refl, created-IsLine v line is_line row plain.1)

  claimed :
      (worker now : ℕ) (found : Option (Priority × ℕ))
      → Serves
          (found ∷ [], leave found line)
          (continued (λ c. ret (job_of c)) (after_claim worker now v found))
  claimed worker now none = (refl, after_claim-IsLine v line is_line worker now none)
  claimed worker now (some m) = (refl, after_claim-IsLine v line is_line worker now (some m))

  perform-serve : (op : Op) → IsPlainJob op v → Serves (serve (op ∷ []) line) (play (perform op) v)
  unfolding perform serve release_job heartbeat
  perform-serve (enqueues cfg id now req) plain = enqueued cfg id now req plain
  perform-serve (claims worker now seconds) plain =
      let ran =
        play->>= (claim_next_job worker now seconds) (λ c. ret (job_of c)) v
        ∙ ap (continued (λ c. ret (job_of c))) (
            play-claim_next_job worker now seconds v
            ∙ ap (after_claim worker now v) (first_in_line-next_up v line is_line)) in
      subst (Serves (next_up line ∷ [], leave (next_up line) line)) (sym ran)
        (claimed worker now (next_up line))
  perform-serve (releases worker id) plain = (refl, is_line)
  perform-serve (beats id now) plain = (refl, is_line)

serve-cons :
    (op : Op) (ops : List Op) (line : Line)
    → let (served, after) = serve (op ∷ []) line in
      serve (op ∷ ops) line ≡ (served ++ (serve ops after).0, (serve ops after).1)
unfolding serve
serve-cons (enqueues cfg id now req) ops line = refl
serve-cons (claims worker now seconds) ops line = refl
serve-cons (releases worker id) ops line = refl
serve-cons (beats id now) ops line = refl

perform_all-serve :
    (ops : List Op) (v : View) (line : Line)
    → IsLine v line
    → ArePlainJobs ops v
    → Serves (serve ops line) (play (perform_all ops) v)
unfolding perform_all serve
perform_all-serve [] v line is_line plain = (refl, is_line)
perform_all-serve (op ∷ ops) v line is_line plain =
    let (served, after) = serve (op ∷ []) line in
    let one = perform-serve v line is_line op plain.0 in
    let v' = (play (perform op) v).1 in
    let others = perform_all-serve ops v' after one.1 plain.1 in
    let then_rest : Served → Served → Program Served = λ first rest. ret (first ++ rest) in
    let ran =
      play->>= (perform op) (λ first. perform_all ops >>= then_rest first) v
      ∙ continued-ok (λ first. perform_all ops >>= then_rest first) (play (perform op) v) served
          one.0
      ∙ play->>= (perform_all ops) (then_rest served) v'
      ∙ continued-ok (then_rest served) (play (perform_all ops) v') (serve ops after).0 others.0 in
    subst (λ spec. Serves spec (play (perform_all (op ∷ ops)) v)) (sym (serve-cons op ops line))
      (subst (Serves _) (sym ran) (refl, others.1))

-- Against reliable services, let any servers enqueue jobs without a key or a delay, whose rows Postgres
-- takes, and any workers claim, release and send heartbeats, in any order, one operation after the
-- other. The claims return, one by one, exactly what the three lines serve: always the oldest waiting
-- job of the highest priority, and nothing only when all three are empty; and in the end the Redis
-- lists hold what the lines hold.
pub perform_all-refines :
    (srv : Server) (h : IsReliable srv) (ops : List Op) (line : Line) (w : srv.World)
    → IsLine (srv.view w) line
    → ArePlainJobs ops (srv.view w)
    → let (served, last) = serve ops line in
      let ended = run srv (perform_all ops) w in
      (ended.0 ≡ ok served) × IsLine (srv.view ended.1) last
perform_all-refines srv h ops line w is_line plain =
    let agrees = run-play srv h (perform_all ops) w in
    let (served, held) = perform_all-serve ops (srv.view w) line is_line plain in
    (agrees.0 ∙ served, subst (λ v. IsLine v (serve ops line).1) (sym agrees.1) held)
