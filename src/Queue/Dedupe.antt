-- ===== src/Queue/Dedupe.antt =====
-- Idempotency keys: FR-1.3 of packages/server/src/lib/queue.js.
use distributed_job_queue.Base.{
  ℕ, ◌+◌, ◌*◌, ◌<◌, ltb, if◌then◌else◌, ◌≡◌, refl, ◌∙◌, ap, true, false, Option, none, some, List,
  [], ◌∷◌, ◌++◌, arith, ==_refl,
}
use distributed_job_queue.Job.{Row, Priority}
use distributed_job_queue.Store.Command.{idempotency}
use distributed_job_queue.Store.Program.{ok, Program, ret, ◌>>=◌}
use distributed_job_queue.Store.View.{View, set_string, violates, find_row}
use distributed_job_queue.Store.Server.{Server, play}
use distributed_job_queue.Queue.{
  Config, Request, Enqueued, enqueue_job, create_job, find_duplicate, known_job,
}
use distributed_job_queue.Queue.Enqueue.{remembered, placed, created}

pub find_row-new :
    (row : Row) (jobs : List Row)
    → violates row jobs ≡ false
    → find_row row.id (jobs ++ row ∷ []) ≡ some row
find_row-new row [] e = ground (arith, ==_refl row.id)
find_row-new row (r ∷ rs) e = ground (arith, find_row-new row rs)

placed-strings :
    (t : Option ℕ) (p : Priority) (id : ℕ) (v : View) → (placed t p id v).strings ≡ v.strings
placed-strings none p id v = refl
placed-strings (some t) p id v = refl

placed-jobs : (t : Option ℕ) (p : Priority) (id : ℕ) (v : View) → (placed t p id v).jobs ≡ v.jobs
placed-jobs none p id v = refl
placed-jobs (some t) p id v = refl

remembered-jobs : (key : Option ℕ) (id : ℕ) (v : View) → (remembered key id v).jobs ≡ v.jobs
remembered-jobs none id v = refl
remembered-jobs (some key) id v = refl

remembered-key :
    (key : ℕ) (k : Option ℕ) (id : ℕ) (v : View)
    → k ≡ some key
    → (remembered k id v).strings (idempotency key) ≡ some id
remembered-key key none id v e = cc
remembered-key key (some j) id v e = ground (arith, e, ==_refl key)

pub created-jobs : (row : Row) (v : View) → (created row v).jobs ≡ v.jobs ++ row ∷ []
created-jobs row v =
    placed-jobs row.scheduled_for row.priority row.id _
    ∙ remembered-jobs row.idempotency_key row.id _

created-key :
    (key : ℕ) (row : Row) (v : View)
    → row.idempotency_key ≡ some key
    → (created row v).strings (idempotency key) ≡ some row.id
created-key key row v e =
    ap (λ s. s (idempotency key)) (placed-strings row.scheduled_for row.priority row.id _)
    ∙ remembered-key key row.idempotency_key row.id _ e

module _ {A : Type 0} (f : Option Row → Program A) (key : ℕ) (u : View) where
  -- What the lookup of a key comes to, from what Redis holds under it.
  play-find_duplicate :
      (k : Option ℕ)
      → k ≡ some key
      → play (find_duplicate k >>= f) u ≡ play (known_job (u.strings (idempotency key)) >>= f) u
  unfolding find_duplicate
  play-find_duplicate none e = cc
  play-find_duplicate (some j) e =
      let same : j ≡ key = cc in ap (λ i. play (known_job (u.strings (idempotency i)) >>= f) u) same

  play-known_job :
      (o : Option ℕ) (id : ℕ) (job : Row)
      → o ≡ some id
      → find_row id u.jobs ≡ some job
      → play (known_job o >>= f) u ≡ play (f (some job)) u
  play-known_job none id job e found = cc
  play-known_job (some i) id job e found =
      let same : i ≡ id = cc in ap (λ o. play (f o) u) (ap (λ j. find_row j u.jobs) same ∙ found)

pub play-enqueue_job_known :
    (cfg : Config) (id now : ℕ) (req : Request) (key other : ℕ) (job : Row) (u : View)
    → req.idempotency_key ≡ some key
    → u.strings (idempotency key) ≡ some other
    → find_row other u.jobs ≡ some job
    → play (enqueue_job cfg id now req) u ≡ (ok (record { job = job; deduped = true }), u)
unfolding enqueue_job
play-enqueue_job_known cfg id now req key other job u has_key stored found =
    play-find_duplicate _ key u req.idempotency_key has_key
    ∙ play-known_job _ key u (u.strings (idempotency key)) other job stored found

pub play-enqueue_job_new :
    (cfg : Config) (id now : ℕ) (req : Request) (key : ℕ) (u : View)
    → req.idempotency_key ≡ some key
    → u.strings (idempotency key) ≡ none
    → play (enqueue_job cfg id now req) u ≡ play (create_job cfg id now req) u
unfolding enqueue_job
play-enqueue_job_new cfg id now req key u has_key fresh =
    play-find_duplicate _ key u req.idempotency_key has_key
    ∙ ap (λ o. play (known_job o >>= after_lookup) u) fresh
  where
    after_lookup : Option Row → Program Enqueued
    after_lookup = elim [
      | some job ↦ ret (record { job = job; deduped = true })
      | none ↦ create_job cfg id now req
    ]

pub play-enqueue_job_keyless :
    (cfg : Config) (id now : ℕ) (req : Request) (u : View)
    → req.idempotency_key ≡ none
    → play (enqueue_job cfg id now req) u ≡ play (create_job cfg id now req) u
unfolding enqueue_job find_duplicate
play-enqueue_job_keyless cfg id now req u keyless =
    ap (λ key. play (find_duplicate key >>= after_lookup) u) keyless
  where
    after_lookup : Option Row → Program Enqueued
    after_lookup = elim [
      | some job ↦ ret (record { job = job; deduped = true })
      | none ↦ create_job cfg id now req
    ]

-- The second call under a key that a new job has just taken.
pub play-enqueue_job_again :
    (cfg : Config) (id' now' : ℕ) (req' : Request) (key : ℕ) (row : Row) (v : View)
    → row.idempotency_key ≡ some key
    → req'.idempotency_key ≡ some key
    → violates row v.jobs ≡ false
    → play (enqueue_job cfg id' now' req') (created row v)
      ≡ (ok (record { job = row; deduped = true }), created row v)
play-enqueue_job_again cfg id' now' req' key row v has_key has_key' new =
    play-enqueue_job_known cfg id' now' req' key row.id row (created row v) has_key'
      (created-key key row v has_key)
      (ap (find_row row.id) (created-jobs row v) ∙ find_row-new row v.jobs new)

-- What Redis holds at `later` where a key was set for `seconds` at `set_at`, and nothing else has been
-- sent since.
abbrev pub expired : (key seconds set_at later : ℕ) → View → View
expired key seconds set_at later v =
    if ltb later (set_at + seconds * 1000)
    then v
    else record v { strings = set_string (idempotency key) none v.strings }

pub expired-early :
    (key seconds set_at later : ℕ) (v : View)
    → later < set_at + seconds * 1000
    → expired key seconds set_at later v ≡ v
expired-early key seconds set_at later v early = ground (arith, early)
