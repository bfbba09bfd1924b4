-- ===== src/Audit/Tests.antt =====
-- The log of an enqueueing.
use distributed_job_queue.Base.{ℕ, ◌≡◌, refl, none, length}
use distributed_job_queue.Queue
use distributed_job_queue.Store.Protocol.{Follows, trace, state_after}
use distributed_job_queue.Store.Server.{documented, run}
use distributed_job_queue.Audit.{audit}
use distributed_job_queue.Audit.Kept.{Writer, enqueues, writes, writes-logged}
use distributed_job_queue.Samples.{empty_view, request_7}

abbrev config : Queue.Config
config = record { max_retries_default = 3; idempotency_ttl_seconds = 86400 }

abbrev enqueueing : Writer
enqueueing = enqueues config 7 100 request_7

one_entry : ◌≡◌ {A = ℕ} (length (run documented (writes enqueueing) empty_view).1.events) 1
unfolding run writes Queue.enqueue_job
one_entry = refl

writes-logged_example :
    Follows audit none (trace documented (writes enqueueing) empty_view)
    × (state_after audit none (trace documented (writes enqueueing) empty_view) ≡ none)
writes-logged_example = writes-logged documented enqueueing empty_view
