-- ===== src/Lifecycle/Life.antt =====
-- From POST /jobs to the end: enqueueJob, and then rounds of the poller and a lane.
use distributed_job_queue.Base.{
  ℕ, ◌+◌, ◌≤◌, ◌<◌, ◌≡◌, refl, sym, ◌∙◌, ap, subst, false, Option, none, some, List, [], ◌∷◌, ◌++◌,
  arith, length, Option-cases, inl, inr, zero, suc, ==_refl,
}
use mathlib.Core.Option.{get_or}
use distributed_job_queue.Job.{Row, Envelope, LogEntry}
use distributed_job_queue.Store.Command.{queue, idempotency}
use distributed_job_queue.Store.Program.{ok, ◌>>=◌}
use distributed_job_queue.Store.View.{View, violates, find_row}
use distributed_job_queue.Store.Server.{Server, IsReliable, run, play, run-eq}
use distributed_job_queue.Store.Triples.{Ends-at, Ends->>=}
use distributed_job_queue.Queue
use distributed_job_queue.Queue.{
  Request, Enqueued, enqueue_job, create_job, new_row, to_envelope, initial_status, schedule_time,
}
use distributed_job_queue.Queue.Enqueue.{placed, remembered, created, creation, play-create_job}
use distributed_job_queue.Queue.Dedupe.{
  find_row-new, play-enqueue_job_new, play-enqueue_job_keyless,
}
use distributed_job_queue.Worker.Process
use distributed_job_queue.Lifecycle.{Round, run_rounds}
use distributed_job_queue.Lifecycle.States.{IsEmptied, IsSettled}
use distributed_job_queue.Lifecycle.Steps.{IsOnlyIn-set_list}
use distributed_job_queue.Lifecycle.Settling.{IsReady, delayed, queued, IsSpaced, rounds-settle}

-- A job is placed for `due` at the latest.
abbrev IsPlacedBy : (due : ℕ) → Option ℕ → Type 0
IsPlacedBy due none = Unit {0}
IsPlacedBy due (some t) = t ≤ due

placed-IsReady :
    (t : Option ℕ) (due : ℕ) (row : Row) (e : Envelope) (published : List LogEntry) (w : View)
    → IsPlacedBy due t
    → IsEmptied w
    → w.delayed_set ≡ []
    → w.envelopes row.id ≡ some e
    → find_row row.id w.jobs ≡ some row
    → row.status ≡ initial_status t
    → row.attempt ≡ e.attempt
    → IsReady row.id due e (record (placed t e.priority row.id w) { published = published })
placed-IsReady none due row e published w by empty set described found status attempt =
    queued (record {
      lists = λ k. IsOnlyIn-set_list row.id (queue e.priority) k w empty;
      set = set;
      described = described;
      stored = record { row = row; found = found; has_status = status; has_attempt = attempt };
    })
placed-IsReady (some t) due row e published w by empty set described found status attempt =
    delayed t by (record {
      lists = empty;
      set = rw set refl;
      described = described;
      stored = record { row = row; found = found; has_status = status; has_attempt = attempt };
    })

remembered-strings :
    (key : Option ℕ) (id : ℕ) (v : View)
    → remembered key id v ≡ record v { strings = (remembered key id v).strings }
remembered-strings none id v = refl
remembered-strings (some key) id v = refl

schedule_time-IsPlacedBy : (now delay : ℕ) → IsPlacedBy (now + delay) (schedule_time now delay)
unfolding schedule_time
schedule_time-IsPlacedBy now zero = tt
schedule_time-IsPlacedBy now (suc d) = omega arith

module _ (qcfg : Queue.Config) (id now : ℕ) (req : Request) where
  abbrev row : Row
  row = new_row qcfg id now req

  abbrev due : ℕ
  due = now + get_or req.delay 0

  created-IsReady :
      (v : View)
      → IsEmptied v
      → v.delayed_set ≡ []
      → violates row v.jobs ≡ false
      → IsReady id due (to_envelope row) (created row v)
  unfolding new_row to_envelope
  created-IsReady v empty set new =
      let stored : View = record v {
        jobs = v.jobs ++ row ∷ [];
        events = v.events ++ creation row ∷ [];
      } in
      let same = remembered-strings req.idempotency_key id stored in
      placed-IsReady row.scheduled_for due row (to_envelope row) _ _
        (schedule_time-IsPlacedBy now (get_or req.delay 0))
        (λ k. ap (λ (u : View). u.lists k) same ∙ empty k)
        (ap (λ (u : View). u.delayed_set) same ∙ set) (ground (arith, ==_refl id))
        (ap (λ (u : View). find_row id u.jobs) same ∙ find_row-new row v.jobs new) refl refl

  -- Redis holds no idempotency key of the request.
  abbrev IsFresh : View → Type 0
  IsFresh v = (key : ℕ) → req.idempotency_key ≡ some key → v.strings (idempotency key) ≡ none

  play-enqueue_job :
      (v : View)
      → IsFresh v
      → play (enqueue_job qcfg id now req) v ≡ play (create_job qcfg id now req) v
  play-enqueue_job v fresh = elim (Option-cases req.idempotency_key) [
    | inl e ↦ play-enqueue_job_keyless qcfg id now req v e
    | inr (key, e) ↦ play-enqueue_job_new qcfg id now req key v e (fresh key e)
  ]

  -- Against reliable services, let the queues, the processing lists and the delayed set be empty, and
  -- let a job be enqueued, with a delay or without, under an id and a key that are new. Let then the
  -- poller and a lane of one worker take turns, more often than the job has retries, each poll later
  -- than the delay or the longest backoff before it. Then, whatever its handler does at each attempt,
  -- the job ends 'completed' after as many failed attempts as it has retries at most, or 'dead' after
  -- exactly one more, and it is in no list, not delayed, and without data.
  pub enqueue_job-settles :
      (srv : Server) (h : IsReliable srv) (cfg : Process.Config) (worker : ℕ) (rounds : List Round)
      (w : srv.World)
      → IsEmptied (srv.view w)
      → (srv.view w).delayed_set ≡ []
      → IsFresh (srv.view w)
      → violates row (srv.view w).jobs ≡ false
      → IsSpaced cfg due rounds
      → row.max_retries < length rounds
      → let ended = run srv (enqueue_job qcfg id now req >>= λ _. run_rounds cfg worker rounds) w in
        (ended.0 ≡ ok tt) × IsSettled id row.max_retries (srv.view ended.1)
  unfolding new_row to_envelope
  enqueue_job-settles srv h cfg worker rounds w empty set fresh new spaced enough =
      let v = srv.view w in
      let p =
        Ends->>= (enqueue_job qcfg id now req) (λ _. run_rounds cfg worker rounds) v
          (Ends-at {Q = λ _ u. IsReady id due (to_envelope row) u} _ _
            (play-enqueue_job v fresh ∙ play-create_job qcfg id now req v new)
            (created-IsReady v empty set new))
          (λ _ u ready.
            rounds-settle cfg worker id rounds due (to_envelope row) u ready zero_le spaced
              enough_rounds) in
      let agrees =
        run-eq srv h (enqueue_job qcfg id now req >>= λ _. run_rounds cfg worker rounds) w p.ends in
      (agrees.0, subst (IsSettled id row.max_retries) (sym agrees.1) p.holds)
    where
      zero_le : (to_envelope row).attempt ≤ (to_envelope row).max_retries
      zero_le = omega arith

      enough_rounds : (to_envelope row).max_retries < (to_envelope row).attempt + length rounds
      enough_rounds = omega arith
