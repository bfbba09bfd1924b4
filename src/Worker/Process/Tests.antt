-- ===== src/Worker/Process/Tests.antt =====
-- Job 7 by the handler send_email: it fails at its first attempt, and is sent at a later one.
use distributed_job_queue.Base.{◌≡◌, refl, some, arith, ◌^◌}
use distributed_job_queue.Payload.{str}
use distributed_job_queue.Job.{high, Envelope, provider_failure, invalid_number}
use distributed_job_queue.Store.Program.{ok, err}
use distributed_job_queue.Store.Server.{run, documented, documented-IsReliable, Agrees}
use distributed_job_queue.Worker.Claim.{Claimed}
use distributed_job_queue.Worker.Handlers.{sent, object_undefined, send_email}
use distributed_job_queue.Worker.Process.{
  Config, Readings, run_handler, retry_in, gave_up, completed_with, process_job,
}
use distributed_job_queue.Worker.Process.Final.{delay_of, claimed_view}
use distributed_job_queue.Worker.Process.Endings.{IsRetried, IsBuried, IsCompleted}
use distributed_job_queue.Worker.Process.Outcomes.{
  process_job-retries, process_job-gives_up, process_job-completes,
}
use distributed_job_queue.Samples.{claimed_7, envelope_7, row_7}
use distributed_job_queue.Worker.Process.Stuck.{bare, process_job-stuck}
use distributed_job_queue.Store.Protocol.{Follows, trace}
use distributed_job_queue.Worker.Process.Released.{
  nowhere, settled_first, process_job-settled_first,
}

abbrev config : Config
config = record { default_timeout_ms = 30000; backoff_base_ms = 2000; backoff_max_ms = 300000 }

abbrev readings : Readings
readings = record { completed_at = 300; db_now = 200; now = 200; random = 2 ^ 52; latency = 50 }

abbrev claim_of : Envelope → Claimed
claim_of e = record { id = 7; priority = high; envelope = some e }

-- The same job without a retry, and at its second attempt.
abbrev no_retries : Envelope
no_retries = record envelope_7 { max_retries = 0 }

abbrev second_attempt : Envelope
second_attempt = record envelope_7 { attempt = 1 }

-- `handlers` inherits a member of that name, and it returns.
abbrev unregistered : Envelope
unregistered = record envelope_7 { type = "toString" }

inherited_handler : run_handler config readings (some unregistered) ≡ ok object_undefined
unfolding run_handler
inherited_handler = refl

process_job-retries_example :
    let ended = run documented (process_job config readings 1 (claim_of envelope_7)) claimed_7 in
    (ended.0 ≡ ok (retry_in 1000)) × IsRetried 1 7 1000 200 envelope_7 claimed_7 ended.1
unfolding delay_of run_handler send_email
process_job-retries_example =
    process_job-retries config readings 1 7 high envelope_7 row_7 documented documented-IsReliable
      claimed_7 provider_failure refl (omega arith) refl

process_job-gives_up_example :
    let ended = run documented (process_job config readings 1 (claim_of no_retries)) claimed_7 in
    (ended.0 ≡ ok gave_up) × IsBuried 1 7 no_retries claimed_7 ended.1
unfolding run_handler send_email
process_job-gives_up_example =
    process_job-gives_up config readings 1 7 high no_retries row_7 documented documented-IsReliable
      claimed_7 provider_failure refl (omega arith) refl

process_job-completes_example :
    let ended =
      run documented (process_job config readings 1 (claim_of second_attempt)) claimed_7 in
    (ended.0 ≡ ok (completed_with (sent (some (str "a@b.c")) (some (str "flaky-demo")))))
    × IsCompleted 1 7 0 claimed_7 ended.1
unfolding run_handler send_email
process_job-completes_example =
    process_job-completes config readings 1 7 high second_attempt row_7 documented
      documented-IsReliable claimed_7 (sent (some (str "a@b.c")) (some (str "flaky-demo"))) refl
      refl

process_job-stuck_example :
    Agrees documented documented-IsReliable
      (run documented (process_job config readings 1 (bare 7 high)) claimed_7)
      (err invalid_number, claimed_view 1 7 claimed_7)
process_job-stuck_example =
    process_job-stuck documented documented-IsReliable config readings 1 7 high claimed_7

process_job-settled_first_example :
    Follows settled_first nowhere
      (trace documented (process_job config readings 1 (claim_of no_retries)) claimed_7)
process_job-settled_first_example =
    process_job-settled_first documented config readings 1 (claim_of no_retries) claimed_7
