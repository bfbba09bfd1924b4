-- ===== src/Queue/Poller.antt =====
-- The promotion poller of packages/server/src/index.js: a failure is logged, and the next turn of the
-- interval tries again.
use distributed_job_queue.Base.{ℕ}
use distributed_job_queue.Store.Program.{Program, ret, ◌>>◌, try_catch}
use distributed_job_queue.Queue.{promote_due_delayed_jobs}

-- One turn of `promoterInterval`, with the default limit.
unfoldable pub poll_delayed : (now : ℕ) → Program Unit
unfolding promote_due_delayed_jobs
poll_delayed now = try_catch (promote_due_delayed_jobs now 100 >> ret tt) (λ _. ret tt)
