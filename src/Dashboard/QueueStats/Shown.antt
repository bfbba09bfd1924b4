-- ===== src/Dashboard/QueueStats/Shown.antt =====
-- From the services to the cards of packages/dashboard/src/components/QueueStats.jsx.
use distributed_job_queue.Base.{ℕ, ◌+◌, ◌*◌, ◌≤◌, ◌≡◌, refl, String, some, [], ◌∷◌, length, keep}
use distributed_job_queue.Payload.{num}
use distributed_job_queue.Job.{high, normal, low, dead}
use distributed_job_queue.Store.Command.{queue}
use distributed_job_queue.Store.Program.{ok}
use distributed_job_queue.Store.View.{
  View, count_status, completed_within, created_within, has_failed,
}
use distributed_job_queue.Store.Server.{Server, IsReliable, run, Agrees}
use distributed_job_queue.Queue.Stats.{Stats, Quotient, get_queue_stats}
use distributed_job_queue.Queue.Stats.Counts.{IsAccurate, IsRounded, get_queue_stats-IsAccurate}
use distributed_job_queue.Dashboard.Feed.{Feed, message, step}
use distributed_job_queue.Dashboard.QueueStats.{Cards, Tenths, queue_stats, stats_payload}

-- What is taken of the arithmetic: it rounds to the nearest tenth, a tie either way.
pub record IsNearest (tenths : Tenths) : Type 0 where
  pub nearest :
      (parts : ℕ)
      → parts ≤ 10000
      → (tenths parts * 10 ≤ parts + 5) × (parts ≤ tenths parts * 10 + 5)

-- What the cards show of a view, given the tenths of a percent.
abbrev pub true_cards : (now shown : ℕ) → View → Cards
true_cards now shown v = record {
  depths =
      ("High priority", num (length (v.lists (queue high))))
      ∷ ("Normal priority", num (length (v.lists (queue normal))))
      ∷ ("Low priority", num (length (v.lists (queue low))))
      ∷ ("Delayed", num (length v.delayed_set))
      ∷ [];
  throughput = num (completed_within now 60000 v.jobs);
  failure_rate = some shown;
  dead_letters = num (count_status dead v.jobs);
}

-- A rate in 10000 parts that is the share of the failed among the jobs of the last hour, to the
-- nearest part.
pub record IsRate (now : ℕ) (v : View) (rate : ℕ) : Type 0 where
  pub at_most_all : rate ≤ 10000
  pub below :
      rate * (length (created_within now 3600000 v.jobs) * 2)
      ≤ length (keep has_failed (created_within now 3600000 v.jobs)) * 20000
        + length (created_within now 3600000 v.jobs)
  pub above :
      length (keep has_failed (created_within now 3600000 v.jobs)) * 20000
      ≤ rate * (length (created_within now 3600000 v.jobs) * 2)
        + length (created_within now 3600000 v.jobs)

-- Tenths of a percent that are nearest to a number of 10000 parts.
abbrev pub IsPercentage : (parts shown : ℕ) → Type 0
IsPercentage parts shown = (shown * 10 ≤ parts + 5) × (parts ≤ shown * 10 + 5)

received :
    (tenths : Tenths) (max_events : ℕ) (f : Feed) (ts : String) (s : Stats) (now : ℕ) (v : View)
    → IsAccurate now v s
    → queue_stats tenths (step max_events f (message (some (stats_payload ts s)))).stats
      ≡ some (true_cards now (tenths s.failure_rate_last_hour) v)
unfolding queue_stats step stats_payload
received tenths max_events f ts s now v a =
    rw (a.in_high, a.in_normal, a.in_low, a.waiting, a.dead_jobs, a.throughput) refl

-- Against reliable services, with arithmetic that rounds to the nearest and at most 2 ^ 32 jobs in the last
-- hour, let the server ask for the statistics and broadcast them, at any time
-- stamp, to a dashboard whose feed is in any state. Then its cards show the lengths of the three
-- queues and of the delayed set, the number of jobs completed in the last minute, that of the dead
-- letters, and the share of the jobs of the last hour that have failed, all as the services have
-- them, the share first rounded to 10000 parts and then to tenths of a percent.
pub get_queue_stats-shown :
    (srv : Server) (h : IsReliable srv) (quotient : Quotient) (tenths : Tenths) (now : ℕ)
    (w : srv.World) (max_events : ℕ) (f : Feed) (ts : String)
    → IsRounded quotient
    → IsNearest tenths
    → length (created_within now 3600000 (srv.view w).jobs) ≤ 4294967296
    → (s : Stats) × Agrees srv h (run srv (get_queue_stats quotient now) w) (ok s, srv.view w)
      × (queue_stats tenths (step max_events f (message (some (stats_payload ts s)))).stats
          ≡ some (true_cards now (tenths s.failure_rate_last_hour) (srv.view w)))
      × IsRate now (srv.view w) s.failure_rate_last_hour
      × IsPercentage s.failure_rate_last_hour (tenths s.failure_rate_last_hour)
get_queue_stats-shown srv h quotient tenths now w max_events f ts rounded near some_jobs =
    let (s, agrees, a) = get_queue_stats-IsAccurate srv h quotient now w rounded some_jobs in
    (
      s,
      agrees,
      received tenths max_events f ts s now (srv.view w) a,
      record { at_most_all = a.at_most_all; below = a.nearest.0; above = a.nearest.1 },
      near.nearest s.failure_rate_last_hour a.at_most_all,
    )
