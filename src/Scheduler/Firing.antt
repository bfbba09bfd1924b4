-- ===== src/Scheduler/Firing.antt =====
-- What fireScheduledJob of packages/scheduler/src/index.js leaves, by the record of it in
-- `job_events` and by the definition's `last_run_at`.
use distributed_job_queue.Base.{
  ℕ, ◌+◌, ◌≡◌, refl, ap, ◌∙◌, Bool, true, false, if◌then◌else◌, some, List, [], ◌∷◌, ◌++◌, arith,
  ◌==◌, ==_iff, length, keep, Bool-cases, inl, inr,
}
use mathlib.Core.Option
use distributed_job_queue.Job.{Definition, Message, LogEntry, queued, enqueued_by_scheduler}
use distributed_job_queue.Store.Program.{Result}
use distributed_job_queue.Store.View.{View, violates, update_definitions, find_definition}
use distributed_job_queue.Store.Server.{play}
use distributed_job_queue.Queue.Enqueue.{play-insert_refused, play-insert_job}
use distributed_job_queue.Scheduler.{
  CronParser, Config, is_due, fire_scheduled_job, fire_if_due, scheduled_row,
}

abbrev pub is_firing : (definition : ℕ) → Message → Bool
is_firing i (enqueued_by_scheduler d cron) = d == i
is_firing i m = false

-- How many jobs a definition has fired, by the log.
abbrev pub firings : (definition : ℕ) → List LogEntry → ℕ
firings i events = length (keep (λ e. is_firing i e.message) events)

abbrev pub stamped : (now : ℕ) → Definition → Definition
stamped now def = record def { last_run_at = some now }

-- How many definitions have an id: at most one, since it is the primary key.
abbrev pub copies : (definition : ℕ) → List Definition → ℕ
copies i defs = length (keep (λ d. d.id == i) defs)

firings-append :
    (i : ℕ) (xs : List LogEntry) (e : LogEntry)
    → firings i (xs ++ e ∷ []) ≡ firings i xs + (if is_firing i e.message then 1 else 0)
firings-append i [] e = ground arith
firings-append i (x ∷ xs) e = ground (arith, firings-append i xs e)

module _ (i now : ℕ) where
  find_definition-stamped :
      (defs : List Definition)
      → find_definition i (update_definitions i (stamped now) defs)
        ≡ Option.map (stamped now) (find_definition i defs)
  find_definition-stamped [] = refl
  find_definition-stamped (d ∷ defs) = ground (arith, find_definition-stamped defs)

  find_definition-other :
      (j : ℕ) (defs : List Definition)
      → (j == i) ≡ false
      → find_definition i (update_definitions j (stamped now) defs) ≡ find_definition i defs
  find_definition-other j [] e = refl
  find_definition-other j (d ∷ defs) e = ground (arith, e, find_definition-other j defs)

  copies-stamped :
      (j : ℕ) (defs : List Definition)
      → copies i (update_definitions j (stamped now) defs) ≡ copies i defs
  copies-stamped j [] = refl
  copies-stamped j (d ∷ defs) = ground (arith, copies-stamped j defs)

-- A run leaves a definition alone, or fires it once.
pub data Turned (parser : CronParser) (i now : ℕ) (def : Definition) (v u : View) : Type 0 where
  idle :
      firings i u.events ≡ firings i v.events
      → find_definition i u.definitions ≡ find_definition i v.definitions
      → Turned parser i now def v u
  fired :
      def.id ≡ i
      → is_due parser def now ≡ true
      → firings i u.events ≡ firings i v.events + 1
      → find_definition i u.definitions ≡ Option.map (stamped now) (find_definition i v.definitions)
      → Turned parser i now def v u

abbrev log_of : Definition → (id : ℕ) → LogEntry
log_of def id = record {
  job_id = id;
  status = queued;
  message = enqueued_by_scheduler def.id def.cron_expression;
}

-- What is written once Postgres has the row.
abbrev logged : Definition → (id now : ℕ) → View → View
logged def id now v = record v {
  events = v.events ++ log_of def id ∷ [];
  definitions = update_definitions def.id (stamped now) v.definitions;
}

record Fire (def : Definition) (id now : ℕ) (v u : View) : Type 0 where
  events_then : u.events ≡ (logged def id now v).events
  definitions_then : u.definitions ≡ (logged def id now v).definitions

module _ (cfg : Config) (def : Definition) (id now : ℕ) (v : View) where
  play-fire_scheduled_job :
      violates (scheduled_row cfg def id now) v.jobs ≡ false
      → Fire def id now v (play (fire_scheduled_job cfg def id now) v).1
  unfolding fire_scheduled_job
  play-fire_scheduled_job e =
      let done = play-insert_job (scheduled_row cfg def id now) _ v e in
      record {
        events_then = ap (λ (r : Result Unit × View). r.1.events) done;
        definitions_then = ap (λ (r : Result Unit × View). r.1.definitions) done;
      }

  play-fire_refused :
      violates (scheduled_row cfg def id now) v.jobs ≡ true
      → (play (fire_scheduled_job cfg def id now) v).1 ≡ v
  unfolding fire_scheduled_job
  play-fire_refused e =
      ap (λ (r : Result Unit × View). r.1)
        (play-insert_refused (scheduled_row cfg def id now) _ v e)

module _ (parser : CronParser) (cfg : Config) (i now : ℕ) (v : View) where
  Fire-Turned :
      (def : Definition) (id : ℕ) (u : View)
      → is_due parser def now ≡ true
      → Fire def id now v u
      → Turned parser i now def v u
  Fire-Turned def id u due f = elim (Bool-cases (def.id == i)) [
    | inl e ↦
        let same : def.id ≡ i = (==_iff def.id i).0 e in
        fired same due
          (ap (firings i) f.events_then
            ∙ ground (arith, e, firings-append i v.events (log_of def id)))
          (ap (find_definition i) f.definitions_then
            ∙ rw same (find_definition-stamped i now v.definitions))
    | inr e ↦
        idle
          (ap (firings i) f.events_then
            ∙ ground (arith, e, firings-append i v.events (log_of def id)))
          (ap (find_definition i) f.definitions_then
            ∙ find_definition-other i now def.id v.definitions e)
  ]

  -- A definition that is not due leaves everything; so does one whose row Postgres refuses.
  pub fire_if_due-Turned :
      (draw : ℕ → ℕ) (def : Definition)
      → Turned parser i now def v (play (fire_if_due parser cfg draw now def) v).1
  unfolding fire_if_due
  fire_if_due-Turned draw def = elim (Bool-cases (is_due parser def now)) [
    | inr e ↦ rw e (idle refl refl)
    | inl e ↦ rw e (elim (Bool-cases (violates (scheduled_row cfg def (draw def.id) now) v.jobs)) [
      | inl b ↦ rw (play-fire_refused cfg def (draw def.id) now v b) (idle refl refl)
      | inr b ↦
          Fire-Turned def (draw def.id) _ e (play-fire_scheduled_job cfg def (draw def.id) now v b)
    ])
  ]

  pub fire_if_due-copies :
      (draw : ℕ → ℕ) (def : Definition)
      → copies i (play (fire_if_due parser cfg draw now def) v).1.definitions
        ≡ copies i v.definitions
  unfolding fire_if_due
  fire_if_due-copies draw def = elim (Bool-cases (is_due parser def now)) [
    | inr e ↦ rw e refl
    | inl e ↦ rw e (elim (Bool-cases (violates (scheduled_row cfg def (draw def.id) now) v.jobs)) [
      | inl b ↦ rw (play-fire_refused cfg def (draw def.id) now v b) refl
      | inr b ↦
          ap (copies i) (play-fire_scheduled_job cfg def (draw def.id) now v b).definitions_then
          ∙ copies-stamped i now def.id v.definitions
    ])
  ]
