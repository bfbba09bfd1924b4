-- ===== src/Dashboard/Tests.antt =====
-- A feed that loses its connection, and the chart of a few broadcasts.
use distributed_job_queue.Queue.Stats.Counts.{half_up, half_up-IsRounded}
use distributed_job_queue.Base.{
  ℕ, Bool, Option, refl, ◌≡◌, false, some, none, List, [], ◌∷◌, true, arith, ◌+◌, ◌/◌,
}
use distributed_job_queue.Payload.{Json, obj, end, field, str}
use distributed_job_queue.Dashboard.Feed.{
  Signal, opened, message, closed, cleaned_up, initial, step, run_signals, classify,
}
use distributed_job_queue.Dashboard.Feed.Bounds.{
  IsBounded, run_signals-IsBounded, failures, failures-retry_delay,
}
use distributed_job_queue.Dashboard.Feed.Latest.{run_signals-latest}
use distributed_job_queue.Dashboard.Chart.{history_after, history_after-last_30, last_30}
use distributed_job_queue.Job.{Row, dead, high, Error, service}
use distributed_job_queue.Samples.{row_7, empty_view, queued_view}
use distributed_job_queue.Store.Program.{ok, ret}
use distributed_job_queue.Store.View.{View}
use distributed_job_queue.Store.Server.{Agrees, run, documented, documented-IsReliable}
use distributed_job_queue.Routes.Response.{serialize_job, internal_error}
use distributed_job_queue.App
use distributed_job_queue.Dashboard.JobList.{
  Query, Reply, listed, Event, settled, next, choose_status, mounted, react_all,
}
use distributed_job_queue.Dashboard.JobList.Pages.{IsCurrent, react_all-IsCurrent}
use distributed_job_queue.Dashboard.DeadLetters.{DeadLetters, retry_all, load}
use distributed_job_queue.Dashboard.Api.{said}
use distributed_job_queue.Dashboard.Wire.{Method, post, Parser, RefusesEmpty, serve}
use distributed_job_queue.Dashboard.Wire.Refused.{handle_retry-refused, retry_all-refused}
use distributed_job_queue.Dashboard.JobDetail.{Detail, handle_retry}
use distributed_job_queue.Queue.Stats.{Stats, get_queue_stats}
use distributed_job_queue.Dashboard.QueueStats.{Tenths, queue_stats, stats_payload}
use distributed_job_queue.Dashboard.QueueStats.Shown.{
  true_cards, IsRate, IsNearest, IsPercentage, get_queue_stats-shown,
}
use distributed_job_queue.Dashboard.SubmitForm.{Form, Submission}

abbrev job_event : Json
job_event = obj (field "jobId" (str "7") end)

abbrev signals : List Signal
signals =
    opened
    ∷ message (some job_event)
    ∷ message none
    ∷ message (some (obj (field "type" (str "stats") end)))
    ∷ closed
    ∷ cleaned_up
    ∷ []

run_signals-IsBounded_example : IsBounded 100 (run_signals 100 initial signals)
run_signals-IsBounded_example = run_signals-IsBounded 100 signals

third_failure : (run_signals 100 initial (failures 3)).retry_delay ≡ 8000
third_failure = failures-retry_delay 100 3

run_signals-latest_run : (run_signals 100 initial signals).events ≡ job_event ∷ []
unfolding classify
run_signals-latest_run = run_signals-latest 100 signals

history_after-last_30_run :
    history_after [] ((100, some 5) ∷ (200, none) ∷ [])
    ≡ record { time = 100; throughput = 5 } ∷ record { time = 200; throughput = 0 } ∷ []
unfolding last_30
history_after-last_30_run = history_after-last_30 ((100, some 5) ∷ (200, none) ∷ [])

-- A server that lists nothing, and an answer that comes too late.
abbrev answers : ℕ → Query → Reply
answers n q = listed (record { jobs = []; total = 25 })

abbrev clicks : List Event
clicks = settled 0 ∷ next ∷ choose_status "dead" ∷ settled 1 ∷ settled 2 ∷ []

react_all-IsCurrent_example : IsCurrent answers (react_all answers mounted clicks)
react_all-IsCurrent_example = react_all-IsCurrent answers clicks

abbrev dead_row : Row
dead_row = record row_7 { status = dead; attempt = 3 }

abbrev dead_view : View
dead_view = record empty_view { jobs = dead_row ∷ [] }

abbrev config : App.Config
config = record {
  api_keys = [];
  rate_limit_per_min = 600;
  quotient = half_up;
  queue = record { max_retries_default = 5; idempotency_ttl_seconds = 86400 };
}

-- Listed twice.
abbrev dead_letters : DeadLetters
dead_letters = record {
  jobs = serialize_job dead_row ∷ serialize_job dead_row ∷ [];
  error = none;
  busy_id = none;
}

abbrev detail : Detail
detail = record { job = some (serialize_job dead_row, []); error = none; busy = false; changes = 0 }

abbrev form : Form
form = record {
  type = "noop";
  payload = some (obj end);
  priority = high;
  delay = 0;
  max_retries = 3;
  idempotency_key = some 5;
}

abbrev blank : Submission
blank = record { result = none; error = none; submissions = 0 }

-- A parser of bodies that refuses what is documented.
abbrev refuse : Method → Bool → Bool → Option Error
refuse post true false = some (service 1)
refuse _ _ _ = none

abbrev strict : Parser
strict r = refuse r.method r.is_json r.has_body

abbrev nearest_tenth : Tenths
nearest_tenth parts = (parts + 5) / 10

nearest_tenth-IsNearest : IsNearest nearest_tenth
nearest_tenth-IsNearest = record { nearest = λ parts le. omega arith }

get_queue_stats-shown_example :
    (s : Stats) × Agrees documented documented-IsReliable
      (run documented (get_queue_stats half_up 500) queued_view)
      (ok s, queued_view)
    × (queue_stats nearest_tenth (step 100 initial (message (some (stats_payload "12:00" s)))).stats
        ≡ some (true_cards 500 (nearest_tenth s.failure_rate_last_hour) queued_view))
    × IsRate 500 queued_view s.failure_rate_last_hour
    × IsPercentage s.failure_rate_last_hour (nearest_tenth s.failure_rate_last_hour)
get_queue_stats-shown_example =
    get_queue_stats-shown documented documented-IsReliable half_up nearest_tenth 500 queued_view 100
      initial "12:00" half_up-IsRounded nearest_tenth-IsNearest (omega arith)

strict-RefusesEmpty : RefusesEmpty strict
strict-RefusesEmpty = record { empty_json = (service 1, refl) }

handle_retry-refused_example :
    handle_retry (serve strict config) 7 detail
    ≡ ret (record detail { error = some (said internal_error); busy = false })
handle_retry-refused_example = handle_retry-refused strict strict-RefusesEmpty config 7 detail

retry_all-refused_example :
    retry_all (serve strict config) dead_letters
    ≡ load (serve strict config) (record dead_letters { busy_id = none })
retry_all-refused_example = retry_all-refused strict strict-RefusesEmpty config dead_letters
