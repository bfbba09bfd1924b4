-- ===== src/Queue/Tests.antt =====
-- One request, twice under one key.
use distributed_job_queue.Base.{◌+◌, ◌≡◌, refl, none, [], ◌∷◌, ℕ, some, arith}
use distributed_job_queue.Store.Program.{ok, err}
use distributed_job_queue.Store.Server.{run, documented, documented-IsReliable, Agrees}
use distributed_job_queue.Store.Protocol.{Follows, trace}
use distributed_job_queue.Queue.{Config, enqueue_job, promote_due_delayed_jobs}
use distributed_job_queue.Queue.Stored.{stored_first, enqueue_job-stored_first}
use distributed_job_queue.Samples.{request_7, row_7, empty_view, envelope_7}
use distributed_job_queue.Job.{unique_violation, high}
use distributed_job_queue.Store.View.{View, due_ids}
use distributed_job_queue.Queue.Expired.{enqueue_job-expired_key}
use distributed_job_queue.Queue.Promotion.{HasDueRows, AllTaken, promote_due_delayed_jobs-all}
use distributed_job_queue.Queue.Promotion.Line.{in_queues}
use distributed_job_queue.Store.Command.{queue}

abbrev config : Config
config = record { max_retries_default = 5; idempotency_ttl_seconds = 86400 }

enqueue_job-stored_first_example :
    Follows stored_first none (trace documented (enqueue_job config 7 100 request_7) empty_view)
enqueue_job-stored_first_example =
    enqueue_job-stored_first documented config 7 100 request_7 empty_view

-- Redis has dropped the key; the row of job 7 still has it.
abbrev expired_view : View
expired_view = record empty_view { jobs = row_7 ∷ [] }

enqueue_job-expired_key_example :
    Agrees documented documented-IsReliable
      (run documented (enqueue_job config 8 200 request_7) expired_view)
      (err unique_violation, expired_view)
enqueue_job-expired_key_example =
    enqueue_job-expired_key documented documented-IsReliable config 8 200 5 request_7 row_7
      expired_view refl refl refl

-- Two jobs are delayed, and job 7 is due at 150.
abbrev delayed_view : View
delayed_view = record empty_view {
  delayed_set = (7, 150) ∷ (8, 900) ∷ [];
  envelopes = λ i. some envelope_7;
  jobs = row_7 ∷ [];
}

job_7_moves :
    (run documented (promote_due_delayed_jobs 150 100) delayed_view).1.lists (queue high) ≡ 7 ∷ []
unfolding run promote_due_delayed_jobs
job_7_moves = refl

promoted_7 : HasDueRows 150 delayed_view
promoted_7 a due = (row_7, ground (arith, due))

promote_due_delayed_jobs-all_example :
    let final = run documented (promote_due_delayed_jobs 150 100) delayed_view in
    (total : ℕ) × (final.0 ≡ ok total)
    × (in_queues final.1 ≡ in_queues delayed_view + total)
    × (due_ids 150 final.1.delayed_set ≡ [])
    × AllTaken (7 ∷ []) delayed_view final.1
promote_due_delayed_jobs-all_example =
    promote_due_delayed_jobs-all documented documented-IsReliable 150 100 delayed_view (omega arith)
      promoted_7
