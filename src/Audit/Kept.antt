-- ===== src/Audit/Kept.antt =====
-- The audit log of every process that changes the status of jobs.
use distributed_job_queue.Base.{ℕ, ◌≡◌, none, List}
use distributed_job_queue.Store.Program.{Program}
use distributed_job_queue.Store.Server.{Server}
use distributed_job_queue.Store.System.{thread}
use distributed_job_queue.Store.Protocol.{Follows, trace, trace-Follows, state_after, trace-Ends}
use distributed_job_queue.Queue
use distributed_job_queue.Queue.{
  Request, enqueue_job, retry_job, cancel_job, promote_due_delayed_jobs,
}
use distributed_job_queue.Worker.Process
use distributed_job_queue.Worker.Lane.{Turn, run_lane}
use distributed_job_queue.Reaper
use distributed_job_queue.Scheduler
use distributed_job_queue.Scheduler.{CronParser}
use distributed_job_queue.Audit.{Audits, Audits-ret, Audits->>=, Audits-Obeys, Audits-Ends, audit}
use distributed_job_queue.Audit.Enqueuing.{
  enqueue_job-Audits, retry_job-Audits, cancel_job-Audits, promote_due_delayed_jobs-Audits,
}
use distributed_job_queue.Audit.Working.{run_lane-Audits}
use distributed_job_queue.Audit.Recovering.{reaper_tick-Audits, scheduler_tick-Audits}

-- The processes that write to `jobs`, with what each is called with.
pub data Writer : Type 0 where
  enqueues : Queue.Config → (id now : ℕ) → Request → Writer
  retries cancels : (id : ℕ) → Writer
  promotes : (now limit : ℕ) → Writer
  works : Process.Config → (worker : ℕ) → List Turn → Writer
  reaps : Reaper.Config → Reaper.Readings → Writer
  ticks : CronParser → Scheduler.Config → (instance_id : ℕ) (draw : ℕ → ℕ) (now : ℕ) → Writer

unfoldable pub writes : Writer → Program Unit
writes (enqueues cfg id now req) = thread (enqueue_job cfg id now req)
writes (retries id) = thread (retry_job id)
writes (cancels id) = thread (cancel_job id)
writes (promotes now limit) = thread (promote_due_delayed_jobs now limit)
writes (works cfg worker turns) = run_lane cfg worker turns
writes (reaps cfg t) = Reaper.tick cfg t
writes (ticks parser cfg instance_id draw now) = Scheduler.tick parser cfg instance_id draw now

thread-Audits : {A : Type 0} (p : Program A) → Audits none p → Audits none (thread p)
thread-Audits p o = Audits->>= none p _ o (λ a. Audits-ret tt)

writes-Audits : (p : Writer) → Audits none (writes p)
unfolding writes
writes-Audits (enqueues cfg id now req) = thread-Audits _ (enqueue_job-Audits cfg id now req)
writes-Audits (retries id) = thread-Audits _ (retry_job-Audits id)
writes-Audits (cancels id) = thread-Audits _ (cancel_job-Audits id)
writes-Audits (promotes now limit) = thread-Audits _ (promote_due_delayed_jobs-Audits now limit)
writes-Audits (works cfg worker turns) = run_lane-Audits cfg worker turns
writes-Audits (reaps cfg t) = reaper_tick-Audits cfg t
writes-Audits (ticks parser cfg instance_id draw now) =
    scheduler_tick-Audits cfg parser instance_id draw now

-- Whatever the services answer, refusals included: whenever Postgres confirms to an enqueueing, a
-- retry or cancellation by the operator, the promotion of delayed jobs, a lane of a worker, a tick of
-- the reaper or one of the scheduler that a job was inserted or its status was updated, the very next
-- command that it sends, and before it ends it does send one, inserts an entry with the id of that
-- job and that status into `job_events`.
pub writes-logged :
    (srv : Server) (p : Writer) (w : srv.World)
    → Follows audit none (trace srv (writes p) w)
      × (state_after audit none (trace srv (writes p) w) ≡ none)
writes-logged srv p w = (
  trace-Follows srv none (writes p) w (Audits-Obeys none (writes p) (writes-Audits p)),
  trace-Ends audit srv (λ h. h ≡ none) none (writes p) w
      (Audits-Ends none (writes p) (writes-Audits p)),
)
