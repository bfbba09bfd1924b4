-- ===== src/App.antt =====
-- packages/server/src/app.js: what a request goes through, with the hooks of packages/server/src/middleware.
-- Fastify parses a request, finds its route and validates it before the hooks run.
mod Tests
pub mod Auth
pub mod Health
pub mod Handlers
pub mod Budget
use distributed_job_queue.Base.{
  ℕ, String, Bool, true, false, ◌&&◌, Option, none, some, List, [], ◌∷◌, if◌then◌else◌,
}
use text.Mathlib.Text.{◌==◌ as str_eq}
use distributed_job_queue.Payload.{Json}
use distributed_job_queue.Job.{Status, Error}
use distributed_job_queue.Store.Command.{eval_bucket, ping, select_one}
use distributed_job_queue.Store.Program.{Program, ret, await, ◌>>=◌, ◌>>◌, try_catch}
use distributed_job_queue.Queue
use distributed_job_queue.Queue.{Request}
use distributed_job_queue.Queue.Stats.{Stats, Quotient, get_queue_stats}
use distributed_job_queue.Routes.Response.{
  Response, unauthorized, rate_limited, validation_error, not_found, internal_error, health_body,
  stats_body, metrics_text,
}
use distributed_job_queue.Routes.Jobs.{post_job, get_job, get_jobs, post_retry, delete_job}
use distributed_job_queue.Routes.Schedules.{
  ScheduleRequest, post_schedule, get_schedules, patch_schedule, delete_schedule,
}

pub record Config : Type 0 where
  pub api_keys : List String
  pub rate_limit_per_min : ℕ
  pub queue : Queue.Config
  pub quotient : Quotient

-- The routes behind the hooks, with what validation leaves of the request, and the ids and readings of
-- the clock that the handler draws.
pub data Endpoint : Type 0 where
  post_jobs : (id now : ℕ) → Request → Endpoint
  job_by_id : (id : ℕ) → Endpoint
  jobs_page : Option Status → Option String → (page page_size : ℕ) → Endpoint
  retry_by_id delete_by_id : (id : ℕ) → Endpoint
  post_schedules : (id : ℕ) → ScheduleRequest → Endpoint
  schedules : Endpoint
  patch_by_id : (id : ℕ) → Option Json → Endpoint
  delete_schedule_by_id : (id : ℕ) → Endpoint
  queues_stats : (now : ℕ) → Endpoint

pub data Target : Type 0 where
  health : Target
  metrics : (now : ℕ) → Target
  refused_by_schema : Target
  guarded : Endpoint → Target

pub record Incoming : Type 0 where
  pub api_key : Option String
  pub arrived : ℕ
  pub target : Target

abbrev pub includes : List String → String → Bool
includes [] key = false
includes (k ∷ ks) key = let rest = includes ks key in if str_eq k key then true else rest

-- apiKeyAuth: the key, where it is valid.
unfoldable pub api_key_auth : List String → Option String → Option String
api_key_auth api_keys none = none
api_key_auth api_keys (some key) =
    if str_eq key "" then none else if includes api_keys key then some key else none

-- rateLimitHandler, with the handler after it.
unfoldable pub rate_limit :
    (capacity : ℕ) → (api_key : String) → (now : ℕ) → Program Response → Program Response
rate_limit capacity api_key now handler = do
  allowed ← await (eval_bucket api_key capacity now)
  if allowed then handler else ret (record { code = 429; body = rate_limited capacity })

unfoldable pub get_stats : Quotient → (now : ℕ) → Program Response
unfolding get_queue_stats
get_stats quotient now =
    get_queue_stats quotient now >>= λ s. ret (record { code = 200; body = stats_body s })

-- The lines that are no comments. The failure rate is in units of 1/10000.
abbrev pub metric_samples : Stats → List (String × ℕ)
metric_samples stats =
    ("jobqueue_queue_depth{priority=\"high\"}", stats.high)
    ∷ ("jobqueue_queue_depth{priority=\"normal\"}", stats.normal)
    ∷ ("jobqueue_queue_depth{priority=\"low\"}", stats.low)
    ∷ ("jobqueue_queue_depth{priority=\"delayed\"}", stats.delayed)
    ∷ ("jobqueue_dlq_count", stats.dlq_count)
    ∷ ("jobqueue_throughput_per_min", stats.throughput_per_min)
    ∷ ("jobqueue_failure_rate_last_hour", stats.failure_rate_last_hour)
    ∷ []

unfoldable pub get_metrics : Quotient → (now : ℕ) → Program Response
unfolding get_queue_stats
get_metrics quotient now = get_queue_stats quotient now >>= λ s.
    ret (record { code = 200; body = metrics_text (metric_samples s) })

unfoldable pub handle : Config → Endpoint → Program Response
unfolding post_job get_job get_jobs post_retry delete_job post_schedule get_schedules patch_schedule
    delete_schedule get_stats
handle cfg (post_jobs id now req) = post_job cfg.queue id now req
handle cfg (job_by_id id) = get_job id
handle cfg (jobs_page status type page page_size) = get_jobs status type page page_size
handle cfg (retry_by_id id) = post_retry id
handle cfg (delete_by_id id) = delete_job id
handle cfg (post_schedules id req) = post_schedule id req
handle cfg schedules = get_schedules
handle cfg (patch_by_id id body) = patch_schedule id body
handle cfg (delete_schedule_by_id id) = delete_schedule id
handle cfg (queues_stats now) = get_stats cfg.quotient now

-- `try { await command; … = true } catch { }`.
abbrev pub succeeds : Program Unit → Program Bool
succeeds check = try_catch (check >> ret true) (λ e. ret false)

unfoldable pub get_health : Program Response
get_health = do
  redis ← succeeds (await ping)
  postgres ← succeeds (await select_one)
  ret (record { code = if redis && postgres then 200 else 503; body = health_body redis postgres })

-- The hooks of the guarded routes, in their order.
unfoldable pub guard : Config → Option String → (now : ℕ) → Endpoint → Program Response
unfolding api_key_auth rate_limit handle
guard cfg header now e = elim (api_key_auth cfg.api_keys header) [
  | none ↦ ret (record { code = 401; body = unauthorized })
  | some key ↦ rate_limit cfg.rate_limit_per_min key now (handle cfg e)
]

-- The error handler: what failed is validation, or an exception.
pub data Failure : Type 0 where
  validation : Failure
  exception : Error → Failure

unfoldable pub on_error : Failure → Response
on_error validation = record { code = 400; body = validation_error }
on_error (exception e) = record { code = 500; body = internal_error }

unfoldable pub dispatch : Config → Incoming → Program Response
unfolding get_health get_metrics guard on_error
dispatch cfg req = elim req.target [
  | health ↦ get_health
  | metrics now ↦ get_metrics cfg.quotient now
  | refused_by_schema ↦ ret (on_error validation)
  | guarded e ↦ guard cfg req.api_key req.arrived e
]

unfoldable pub respond : Config → Incoming → Program Response
unfolding dispatch on_error
respond cfg req = try_catch (dispatch cfg req) (λ e. ret (on_error (exception e)))
