-- ===== src/Line/Tests.antt =====
-- Two jobs are enqueued and claimed, the later but more urgent one first.
use distributed_job_queue.Base.{◌≡◌, refl, some, none, List, [], ◌∷◌}
use distributed_job_queue.Job.{Priority, high, normal, low}
use distributed_job_queue.Store.Program.{ok}
use distributed_job_queue.Store.Server.{run, documented, documented-IsReliable}
use distributed_job_queue.Queue
use distributed_job_queue.Queue.{Request, new_row}
use distributed_job_queue.Line.{Line, arrive}
use distributed_job_queue.Line.Steps.{IsLine}
use distributed_job_queue.Line.Refines.{
  Op, enqueues, claims, beats, perform, perform_all, serve, perform_all-refines,
}
use distributed_job_queue.Samples.{empty_view}

abbrev config : Queue.Config
config = record { max_retries_default = 5; idempotency_ttl_seconds = 86400 }

abbrev request : Priority → Request
request p = record {
  type = "noop";
  payload = none;
  priority = some p;
  delay = none;
  max_retries = none;
  idempotency_key = none;
}

abbrev ops : List Op
ops =
    enqueues config 7 100 (request low)
    ∷ enqueues config 8 101 (request high)
    ∷ claims 1 102 1
    ∷ beats 8 103
    ∷ claims 2 104 1
    ∷ claims 1 105 1
    ∷ []

abbrev nobody : Line
nobody p = []

perform_all-refines_example :
    let ended = run documented (perform_all ops) empty_view in
    (ended.0 ≡ ok (some (high, 8) ∷ some (low, 7) ∷ none ∷ []))
    × IsLine ended.1 (serve ops nobody).1
unfolding serve arrive new_row perform Queue.enqueue_job
perform_all-refines_example =
    perform_all-refines documented documented-IsReliable ops nobody empty_view
      (elim [ high ↦ refl | normal ↦ refl | low ↦ refl ])
      ((refl, refl, refl), ((refl, refl, refl), (tt, (tt, (tt, (tt, tt))))))
