-- ===== src/Queue/Enqueue.antt =====
-- enqueueJob of packages/server/src/lib/queue.js against reliable services.
use distributed_job_queue.Base.{
  ℕ, ◌≡◌, refl, ◌∙◌, ap, Bool, true, false, Option, none, some, [], ◌∷◌, ◌++◌, if◌then◌else◌,
}
use distributed_job_queue.Job.{Row, LogEntry, Priority, job_created, unique_violation}
use distributed_job_queue.Store.Command.{queue, idempotency, insert_job}
use distributed_job_queue.Store.Program.{Result, ok, err, Program, resume, await, ◌>>=◌}
use distributed_job_queue.Store.View.{
  View, set_list, set_string, set_at, schedule, unscheduled, violates,
}
use distributed_job_queue.Store.Server.{play}
use distributed_job_queue.Queue.{
  Config, Request, create_job, remember_key, place, new_row, to_envelope,
}

-- The view with the key remembered, and with the job in its queue or among the delayed ones.
abbrev pub remembered : Option ℕ → ℕ → View → View
remembered none id v = v
remembered (some key) id v = record v { strings = set_string (idempotency key) (some id) v.strings }

abbrev pub placed : Option ℕ → Priority → ℕ → View → View
placed none p id v = record v { lists = set_list (queue p) (id ∷ v.lists (queue p)) v.lists }
placed (some t) p id v = record v { delayed_set = schedule t id (unscheduled id v.delayed_set) }

abbrev pub creation : Row → LogEntry
creation row = record { job_id = row.id; status = row.status; message = job_created }

-- What a new job leaves behind: its row, its audit entry, its key, its data entry, its place and its
-- event.
abbrev pub created : Row → View → View
created row v =
    let stored = record v { jobs = v.jobs ++ row ∷ []; events = v.events ++ creation row ∷ [] } in
    let known = remembered row.idempotency_key row.id stored in
    let described = record known {
      envelopes = set_at row.id (some (to_envelope row)) known.envelopes;
    } in
    let queued_up = placed row.scheduled_for row.priority row.id described in
    record queued_up { published = creation row ∷ queued_up.published }

play-remember_key :
    {A : Type 0} (key : Option ℕ) (id ttl : ℕ) (f : Unit {0} → Program A) (v : View)
    → play (remember_key key id ttl >>= f) v ≡ play (f tt) (remembered key id v)
unfolding remember_key
play-remember_key none id ttl f v = refl
play-remember_key (some key) id ttl f v = refl

play-place :
    {A : Type 0} (t : Option ℕ) (p : Priority) (id : ℕ) (f : Unit {0} → Program A) (v : View)
    → play (place t p id >>= f) v ≡ play (f tt) (placed t p id v)
unfolding place
play-place none p id f v = refl
play-place (some t) p id f v = refl

module _ {A : Type 0} (row : Row) (f : Row → Program A) (v : View) where
  abbrev inserting : Bool → Result A × View
  inserting b =
      play (resume (if b then err unique_violation else ok row) >>= f)
        (if b then v else record v { jobs = v.jobs ++ row ∷ [] })

  pub play-insert_job :
      violates row v.jobs ≡ false
      → play (await (insert_job row) >>= f) v
        ≡ play (f row) (record v { jobs = v.jobs ++ row ∷ [] })
  play-insert_job e = ap inserting e

  pub play-insert_refused :
      violates row v.jobs ≡ true → play (await (insert_job row) >>= f) v ≡ (err unique_violation, v)
  play-insert_refused e = ap inserting e

pub play-create_job :
    (cfg : Config) (id now : ℕ) (req : Request) (v : View)
    → violates (new_row cfg id now req) v.jobs ≡ false
    → play (create_job cfg id now req) v ≡ (
      ok (record { job = new_row cfg id now req; deduped = false }),
      created (new_row cfg id now req) v,
    )
unfolding create_job
play-create_job cfg id now req v new =
    let row = new_row cfg id now req in
    play-insert_job row _ v new
    ∙ play-remember_key req.idempotency_key id cfg.idempotency_ttl_seconds _ _
    ∙ play-place row.scheduled_for row.priority id _ _
