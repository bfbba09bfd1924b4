-- ===== src/Custody/Firing.antt =====
-- A firing of the scheduler, as a process that brings a job into the system.
use distributed_job_queue.Base.{ℕ, refl, none, some}
use distributed_job_queue.Job.{Definition}
use distributed_job_queue.Store.Command.{publish}
use distributed_job_queue.Store.Protocol.{Obeys-await, Obeys-last}
use distributed_job_queue.Custody.Protocol.{Obeys}
use distributed_job_queue.Scheduler.Stored.{fired}
use distributed_job_queue.Scheduler.{Config, fire_scheduled_job, scheduled_row}

pub fire_scheduled_job-Obeys :
    (cfg : Config) (def : Definition) (id now : ℕ)
    → Obeys (some id) (fire_scheduled_job cfg def id now)
unfolding fire_scheduled_job scheduled_row
fire_scheduled_job-Obeys cfg def id now = Obeys-await _ _ _ tt λ job. Obeys-await _ _ _ tt λ _.
    Obeys-await _ _ _ tt λ _.
      Obeys-await _ _ _ tt λ _. Obeys-await _ _ _ refl λ _. Obeys-last none (publish (fired id)) tt
