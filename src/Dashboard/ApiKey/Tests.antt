-- ===== src/Dashboard/ApiKey/Tests.antt =====
-- A field into which a wrong key is typed, and which is emptied then.
use distributed_job_queue.Queue.Stats.Counts.{half_up}
use distributed_job_queue.Base.{◌≡◌, none, [], ◌∷◌}
use distributed_job_queue.Store.Program.{try_catch}
use distributed_job_queue.App.{Config, retry_by_id, rate_limit, handle, respond}
use distributed_job_queue.Dashboard.Served.{as_500}
use distributed_job_queue.Dashboard.ApiKey.{open_field, type_keys, send}
use distributed_job_queue.Dashboard.ApiKey.Sent.{send-shown}

abbrev config : Config
config = record {
  api_keys = "dev-key-123" ∷ [];
  rate_limit_per_min = 2;
  quotient = half_up;
  queue = record { max_retries_default = 5; idempotency_ttl_seconds = 86400 };
}

emptied_field :
    respond config (send (type_keys (open_field none) ("wrong" ∷ "" ∷ [])) 5 (retry_by_id 7))
    ≡ try_catch (rate_limit 2 "dev-key-123" 5 (handle config (retry_by_id 7))) as_500
unfolding type_keys
emptied_field = send-shown config none ("wrong" ∷ "" ∷ []) 5 (retry_by_id 7)
