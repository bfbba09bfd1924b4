-- ===== src/Reaper/Tests.antt =====
-- Job 7 in the list of worker 1, which has crashed.
use distributed_job_queue.Base.{
  ◌≡◌, refl, arith, ◌^◌, Bool, true, false, if◌then◌else◌, none, [], ◌∷◌, count,
}
use distributed_job_queue.Store.Program.{ok, err}
use distributed_job_queue.Store.View.{View, answer, effect}
use distributed_job_queue.Store.Server.{Server, run, documented, documented-IsReliable}
use distributed_job_queue.Queue.{to_envelope}
use distributed_job_queue.Worker.Process.Endings.{IsRetried, IsBuried}
use distributed_job_queue.Reaper.{Config, Readings, requeue_orphan}
use distributed_job_queue.Reaper.Recovery.{
  delay_of, requeue_orphan-retries, requeue_orphan-gives_up,
}
use distributed_job_queue.Reaper.Lost.{requeue_orphan-loses}
use distributed_job_queue.Job.{service}
use distributed_job_queue.Store.Command.{processing, lrem}
use distributed_job_queue.Samples.{claimed_7, envelope_7, row_7}

abbrev config : Config
config = record {
  poll_interval_ms = 5000;
  orphan_timeout_ms = 15000;
  backoff_base_ms = 2000;
  backoff_max_ms = 300000;
}

abbrev readings : Readings
readings = record {
  now = λ i. 20000;
  later = λ i. 20010;
  db_now = λ i. 20005;
  random = λ i. 2 ^ 52;
}

-- The data in Redis are gone, and the row allows no more attempts.
abbrev last_attempt : View
last_attempt = record claimed_7 { envelopes = λ i. none; jobs = record row_7 { attempt = 2 } ∷ [] }

requeue_orphan-retries_example :
    let ended = run documented (requeue_orphan config readings 1 7 19900) claimed_7 in
    (ended.0 ≡ ok tt) × IsRetried 1 7 1000 20010 envelope_7 claimed_7 ended.1
unfolding delay_of
requeue_orphan-retries_example =
    requeue_orphan-retries config readings 1 7 19900 0 row_7 documented documented-IsReliable
      claimed_7 refl refl (omega arith)

requeue_orphan-gives_up_example :
    let ended = run documented (requeue_orphan config readings 1 7 19900) last_attempt in
    (ended.0 ≡ ok tt)
    × IsBuried 1 7 (to_envelope (record row_7 { attempt = 2 })) last_attempt ended.1
unfolding to_envelope
requeue_orphan-gives_up_example =
    requeue_orphan-gives_up config readings 1 7 19900 0 (record row_7 { attempt = 2 }) documented
      documented-IsReliable last_attempt refl refl (omega arith)

-- The services answer the first command, and then refuse every other.
abbrev breaking : Server
breaking = record {
  World = Bool × View;
  exec = λ c w. if w.0 then (answer c w.1, (false, effect c w.1)) else (err (service 1), w);
  view = λ w. w.1;
}

requeue_orphan-loses_example :
    let ended = run breaking (requeue_orphan config readings 1 7 19900) (true, claimed_7) in
    (ended.0 ≡ err (service 1))
    × (ended.1.1 ≡ effect (lrem (processing 1) 7) claimed_7)
    × (count 7 (ended.1.1.lists (processing 1)) ≡ 0)
    × (ended.1.1.delayed_set ≡ [])
requeue_orphan-loses_example =
    requeue_orphan-loses breaking config readings 1 7 19900 0 (service 1) (true, claimed_7) refl
      refl refl
