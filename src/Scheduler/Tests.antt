-- ===== src/Scheduler/Tests.antt =====
-- One tick over one schedule that is due.
use distributed_job_queue.Base.{
  ℕ, ◌+◌, ◌-◌, ◌*◌, ◌/◌, ◌%◌, ◌≤◌, ◌≡◌, ◌↔◌, refl, String, some, Bool, true, false, List, [], ◌∷◌,
  none, ◌==◌, if◌then◌else◌, arith,
}
use distributed_job_queue.Payload.{obj, end}
use distributed_job_queue.Job.{Definition, high}
use distributed_job_queue.Store.View.{View}
use distributed_job_queue.Store.Server.{run, documented, documented-IsReliable}
use distributed_job_queue.Store.Protocol.{Follows, trace, state_after}
use distributed_job_queue.Store.Command.{queue}
use distributed_job_queue.Scheduler.{Config, CronParser, tick, is_due, fire_scheduled_job}
use distributed_job_queue.Scheduler.Firing.{firings}
use distributed_job_queue.Scheduler.Occurrences.{
  IsCron, FiresBetween, occurrences, is_due-FiresBetween,
}
use distributed_job_queue.Scheduler.Once.{Tick, run_ticks, run_ticks-once}
use distributed_job_queue.Scheduler.Lock.{lock, tick-lock}
use distributed_job_queue.Samples.{empty_view}
use distributed_job_queue.Queue.Stored.{stored_first}
use distributed_job_queue.Scheduler.Stored.{fire_scheduled_job-stored_first}

abbrev config : Config
config = record { max_retries_default = 5; lock_ttl_ms = 4000 }

-- A parser for which every schedule fired at the last full second.
abbrev each_second : CronParser
each_second cron now = some (now - 100)

abbrev nightly : Definition
nightly = record {
  id = 3;
  type = "noop";
  cron_expression = "* * * * * *";
  payload_template = obj end;
  priority = high;
  max_retries = 0;
  enabled = true;
  last_run_at = some 500;
}

abbrev scheduled_view : View
scheduled_view = record empty_view { definitions = nightly ∷ [] }

abbrev draw : ℕ → ℕ
draw n = n + 20

tick_pushes :
    (run documented (tick each_second config 1 draw 1000) scheduled_view).1.lists (queue high)
    ≡ 23 ∷ []
unfolding run tick
tick_pushes = refl

tick-lock_example :
    Follows (lock 1) false (trace documented (tick each_second config 1 draw 1000) scheduled_view)
    × (state_after
          (lock 1)
          false
          (trace documented (tick each_second config 1 draw 1000) scheduled_view)
        ≡ false)
tick-lock_example = tick-lock documented each_second config 1 draw 1000 scheduled_view

fire_scheduled_job-stored_first_run :
    Follows stored_first none
      (trace documented (fire_scheduled_job config nightly 23 1000) scheduled_view)
fire_scheduled_job-stored_first_run =
    fire_scheduled_job-stored_first documented config nightly 23 1000 scheduled_view

-- Every schedule fires at the full seconds, where a second has a hundred units.
abbrev full_second : ℕ → Bool
full_second n = n % 100 == 0

abbrev last_second : CronParser
last_second cron now = if now == 0 then none else some ((now - 1) / 100 * 100)

last_second-IsCron : (cron : String) → IsCron last_second cron full_second
last_second-IsCron cron = record {
  sound = λ now p e. ground (arith, e);
  complete =
      λ now q f before. ((now - 1) / 100 * 100, ground (arith, before), ground (arith, f, before));
}

is_due-FiresBetween_example :
    (is_due last_second nightly 1050 ≡ true) ↔ FiresBetween full_second 501 1050
is_due-FiresBetween_example =
    is_due-FiresBetween last_second full_second 1050 nightly (last_second-IsCron "* * * * * *")

-- Three ticks, of which the second finds nothing to do.
abbrev three_ticks : List Tick
three_ticks =
    record { instance_id = 1; now = 1050; draw = λ n. n + 20 }
    ∷ record { instance_id = 2; now = 1060; draw = λ n. n + 40 }
    ∷ record { instance_id = 1; now = 1120; draw = λ n. n + 60 }
    ∷ []

abbrev ticked : View
ticked = run_ticks documented last_second config three_ticks scheduled_view

fires_twice : firings 3 ticked.events ≡ 2
unfolding run tick
fires_twice = refl

run_ticks-once_example :
    firings 3 ticked.events + occurrences full_second 501
    ≤ firings 3 scheduled_view.events + occurrences full_second 1200
run_ticks-once_example =
    run_ticks-once documented documented-IsReliable last_second config 3 full_second 1200
      three_ticks nightly scheduled_view (last_second-IsCron "* * * * * *") refl (omega arith)
      (omega arith) (omega arith)
