-- ===== src/Dashboard/SubmitForm/Twice.antt =====
-- The form of packages/dashboard/src/App.jsx sent twice, with the server behind it.
use distributed_job_queue.Base.{ℕ, ◌+◌, Bool, none, some, if◌then◌else◌}
use distributed_job_queue.Job.{Row}
use distributed_job_queue.Store.Program.{Program}
use distributed_job_queue.Store.View.{View}
use distributed_job_queue.Store.Server.{Server}
use distributed_job_queue.Queue.Dedupe.{expired}
use distributed_job_queue.Routes.Response.{Response, accepted}
use distributed_job_queue.App.{Config}
use distributed_job_queue.Dashboard.SubmitForm.{Submission}

-- What the page shows of a job: new, or the one that the key already stands for.
abbrev pub shows : Row → (deduped : Bool) → Submission → Submission
shows row deduped s = record s {
  result = some (accepted row.id row.status row.priority row.created_at deduped);
  error = none;
  submissions = s.submissions + 1;
}

abbrev posted : Row → Bool → Response
posted row deduped = record {
  code = if deduped then 200 else 201;
  body = accepted row.id row.status row.priority row.created_at deduped;
}

abbrev held : (srv : Server) (key : ℕ) → Config → (set_at later : ℕ) → srv.World → View
held srv key cfg set_at later w =
    expired key cfg.queue.idempotency_ttl_seconds set_at later (srv.view w)
