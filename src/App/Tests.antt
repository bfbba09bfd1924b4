-- ===== src/App/Tests.antt =====
-- Requests to the server, with a good key and with a bad one.
use distributed_job_queue.Queue.Stats.Counts.{half_up}
use distributed_job_queue.Base.{
  ℕ, ◌*◌, ◌≤◌, ◌≡◌, refl, inl, String, some, none, List, [], ◌∷◌, arith, true,
}
use distributed_job_queue.Store.Program.{ok}
use distributed_job_queue.Store.View.{View}
use distributed_job_queue.Store.Server.{run, documented, documented-IsReliable}
use distributed_job_queue.RateLimit.{Bucket, units, token_bucket}
use distributed_job_queue.RateLimit.Budget.{serve}
use distributed_job_queue.Routes.Response.{unauthorized, health_body}
use distributed_job_queue.App.{
  Config, Endpoint, Incoming, schedules, job_by_id, retry_by_id, guarded, health, api_key_auth,
  respond, handle,
}
use distributed_job_queue.App.Auth.{respond-unauthorized}
use distributed_job_queue.App.Health.{respond-health}
use distributed_job_queue.App.Handlers.{IsPlain, IsOwn, handle-IsServing}
use distributed_job_queue.App.Budget.{passed, passed_bounded}
use distributed_job_queue.Store.Ensures.{Ensures}
use distributed_job_queue.Samples.{empty_view, queued_view}

abbrev config : Config
config = record {
  api_keys = "dev-key-123" ∷ [];
  rate_limit_per_min = 2;
  quotient = half_up;
  queue = record { max_retries_default = 5; idempotency_ttl_seconds = 86400 };
}

abbrev with_key : String → Endpoint → Incoming
with_key key e = record { api_key = some key; arrived = 0; target = guarded e }

respond-unauthorized_example :
    run documented (respond config (with_key "" (retry_by_id 7))) queued_view
    ≡ (ok (record { code = 401; body = unauthorized }), queued_view)
respond-unauthorized_example =
    respond-unauthorized documented config (some "") 0 (retry_by_id 7) queued_view
      λ key e. inl (cc e)

respond-health_run :
    run documented
      (respond config (record { api_key = none; arrived = 0; target = health }))
      empty_view
    ≡ (ok (record { code = 200; body = health_body true true }), empty_view)
respond-health_run = respond-health documented config none 0 empty_view

abbrev full : Bucket
full = record { tokens = 120000; ts = 0 }

abbrev full_view : View
full_view = record queued_view { buckets = λ k. some full }

abbrev three_requests : List (ℕ × Endpoint)
three_requests = (0, job_by_id 7) ∷ (0, retry_by_id 7) ∷ (0, schedules) ∷ []

passed_bounded_example :
    passed config "dev-key-123" documented three_requests full_view * units ≤ 120000
unfolding api_key_auth serve token_bucket
passed_bounded_example =
    passed_bounded documented documented-IsReliable config "dev-key-123" three_requests full
      full_view refl refl (omega arith, (omega arith, (omega arith, tt)))

handle-IsServing_example : Ensures IsPlain IsOwn (handle config (retry_by_id 7))
handle-IsServing_example = handle-IsServing config (retry_by_id 7)
