-- ===== src/Dashboard/Wire/Refused.antt =====
-- The retries of packages/dashboard/src/components/JobDetail.jsx and DLQPage.jsx, as they reach the
-- server.
use distributed_job_queue.Base.{ℕ, ◌≡◌, refl, ◌∙◌, ap, false, none, some, List, [], ◌∷◌}
use distributed_job_queue.Store.Program.{ret, ◌>>=◌, ◌>>◌, for_each}
use distributed_job_queue.Routes.Response.{JobBody, internal_error}
use distributed_job_queue.App.{Config, retry_by_id, on_error}
use distributed_job_queue.Dashboard.Api.{request, read_response, said}
use distributed_job_queue.Dashboard.JobDetail.{Detail, handle_retry, refresh}
use distributed_job_queue.Dashboard.DeadLetters.{DeadLetters, retry_all, retry_ignored, load}
use distributed_job_queue.Dashboard.Wire.{Parser, RefusesEmpty, after_parser, serve, wire}

module _ (parser : Parser) (h : RefusesEmpty parser) (cfg : Config) where
  serve-retry :
      (id : ℕ)
      → serve parser cfg (retry_by_id id) ≡ ret (record { code = 500; body = internal_error })
  unfolding serve wire on_error
  serve-retry id = ap (after_parser cfg (retry_by_id id)) h.empty_json.1

  -- Where the parser of bodies refuses an empty JSON body, the button `Retry job` asks the services
  -- for nothing: pressing it shows the message of an internal error, and the page keeps its job.
  pub handle_retry-refused :
      (id : ℕ) (s : Detail)
      → handle_retry (serve parser cfg) id s
        ≡ ret (record s { error = some (said internal_error); busy = false })
  unfolding handle_retry request read_response
  handle_retry-refused id s =
      ap (λ p. (p >>= λ r. ret (read_response r)) >>= refresh (serve parser cfg) id s)
        (serve-retry id)

  -- Let the parser of bodies refuse an empty JSON body of a POST, as Fastify documents. Then `Retry all` on
  -- the page of dead letters retries no job, whatever jobs it shows: none of its requests sends a command
  -- to the services, and all that is left of it is that no job is marked busy and the page loads again.
  pub retry_all-refused :
      (s : DeadLetters)
      → retry_all (serve parser cfg) s ≡ load (serve parser cfg) (record s { busy_id = none })
  unfolding retry_all retry_ignored request read_response
  retry_all-refused s =
      ap (λ p. p >> load (serve parser cfg) (record s { busy_id = none })) (ignored s.jobs)
    where
      ignored :
          (jobs : List JobBody)
          → for_each jobs tt (λ (job : JobBody) _. retry_ignored (serve parser cfg) job) ≡ ret tt
      ignored [] = refl
      ignored (job ∷ jobs) =
          ap
            (λ p.
              (p >>= λ r. ret (read_response r))
              >> ret tt
              >> for_each jobs tt (λ (j : JobBody) _. retry_ignored (serve parser cfg) j))
            (serve-retry job.id)
          ∙ ignored jobs
