-- ===== src/Worker/Claim/Tests.antt =====
-- A claim from the queues of the samples.
use distributed_job_queue.Base.{◌≡◌, refl, some}
use distributed_job_queue.Job.{high}
use distributed_job_queue.Store.Server.{Agrees, run, documented, documented-IsReliable}
use distributed_job_queue.Worker.Claim.{claim_next_job}
use distributed_job_queue.Worker.Claim.Order.{
  after_claim, first_in_line, claim_next_job-first_in_line,
}
use distributed_job_queue.Samples.{queued_view}

takes_the_oldest : first_in_line queued_view ≡ some (high, 7)
takes_the_oldest = refl

claim_next_job-first_in_line_example :
    Agrees documented documented-IsReliable
      (run documented (claim_next_job 1 100 5) queued_view)
      (after_claim 1 100 queued_view (some (high, 7)))
claim_next_job-first_in_line_example =
    claim_next_job-first_in_line documented documented-IsReliable 1 100 5 queued_view
