-- ===== src/Scheduler/Stored.antt =====
-- fireScheduledJob of packages/scheduler/src/index.js: a recurring job is in Postgres before anything
-- else knows of it.
use distributed_job_queue.Base.{ℕ, refl, none, some}
use distributed_job_queue.Job.{Definition, LogEntry, queued, recurring_fired}
use distributed_job_queue.Store.Command.{publish}
use distributed_job_queue.Store.Server.{Server}
use distributed_job_queue.Store.Protocol.{
  Follows, trace, trace-Follows, Obeys, Obeys-await, Obeys-last,
}
use distributed_job_queue.Queue.Stored.{stored_first}
use distributed_job_queue.Scheduler.{Config, fire_scheduled_job, scheduled_row}

-- The event of a firing.
abbrev pub fired : ℕ → LogEntry
fired id = record { job_id = id; status = queued; message = recurring_fired }

fire_scheduled_job-Obeys :
    (cfg : Config) (def : Definition) (id now : ℕ)
    → Obeys stored_first none (fire_scheduled_job cfg def id now)
unfolding fire_scheduled_job scheduled_row
fire_scheduled_job-Obeys cfg def id now = Obeys-await _ _ _ tt λ job. Obeys-await _ _ _ tt λ _.
    Obeys-await _ _ _ tt λ _.
      Obeys-await _ _ _ refl
        λ _. Obeys-await _ _ _ refl λ _. Obeys-last (some id) (publish (fired id)) refl

-- Whatever the services answer and wherever the run breaks off, fireScheduledJob writes a job's data
-- entry, pushes the job and publishes its event only after Postgres has confirmed its row.
pub fire_scheduled_job-stored_first :
    (srv : Server) (cfg : Config) (def : Definition) (id now : ℕ) (w : srv.World)
    → Follows stored_first none (trace srv (fire_scheduled_job cfg def id now) w)
fire_scheduled_job-stored_first srv cfg def id now w =
    trace-Follows srv none (fire_scheduled_job cfg def id now) w
      (fire_scheduled_job-Obeys cfg def id now)
