-- ===== src/Dashboard/QueueStats.antt =====
-- QueueStats.jsx of packages/dashboard/src/components, and the frame that
-- packages/server/src/ws/gateway.js makes of the statistics. In JSON, too, the failure rate stands in
-- units of 1/10000.
pub mod Shown
use distributed_job_queue.Base.{
  ℕ, ◌+◌, ◌/◌, String, Option, none, some, List, [], ◌∷◌, if◌then◌else◌,
}
use distributed_job_queue.Payload.{Json, null, num, str, obj, Fields, end, field, member, truthy}
use distributed_job_queue.Job.{Status, queued, delayed, active, completed, failed, dead}
use distributed_job_queue.Queue.Stats.{Stats}

abbrev pub status_name : Status → String
status_name queued = "queued"
status_name delayed = "delayed"
status_name active = "active"
status_name completed = "completed"
status_name failed = "failed"
status_name dead = "dead"

abbrev pub by_status_fields : List (Status × ℕ) → Fields
by_status_fields [] = end
by_status_fields ((s, n) ∷ rows) = field (status_name s) (num n) (by_status_fields rows)

-- `{ type: 'stats', ...stats, ts }` with what getQueueStats returns.
unfoldable pub stats_payload : (ts : String) → Stats → Json
stats_payload ts s = obj (
    field "type" (str "stats") (
      field "queueDepth"
        (obj (
          field "high" (num s.high) (
            field "normal" (num s.normal)
              (field "low" (num s.low) (field "delayed" (num s.delayed) end)))))
        (field "byStatus" (obj (by_status_fields s.by_status)) (
          field "throughputPerMin" (num s.throughput_per_min) (
            field "failureRateLastHour" (num s.failure_rate_last_hour)
              (field "dlqCount" (num s.dlq_count) (field "ts" (str ts) end)))))))

-- `value ?? 0`.
abbrev pub or_zero : Option Json → Json
or_zero none = num 0
or_zero (some null) = num 0
or_zero (some j) = j

-- `value || {}`.
abbrev pub or_empty : Option Json → Json
or_empty none = obj end
or_empty (some j) = if truthy (some j) then j else obj end

-- `(failureRate * 100).toFixed(1)`, in tenths of a percent, where it is a number. What the floating-point
-- arithmetic makes of a number of parts is a parameter.
abbrev pub Tenths : Type 0
Tenths = (parts : ℕ) → ℕ

abbrev pub percent_tenths : Tenths → Json → Option ℕ
percent_tenths tenths (num r) = some (tenths r)
percent_tenths tenths _ = none

pub record Cards : Type 0 where
  pub depths : List (String × Json)
  pub throughput : Json
  pub failure_rate : Option ℕ
  pub dead_letters : Json

-- `CARD_LABELS`, with what each card shows.
abbrev pub depth_cards : Json → List (String × Json)
depth_cards depth =
    ("High priority", or_zero (member "high" depth))
    ∷ ("Normal priority", or_zero (member "normal" depth))
    ∷ ("Low priority", or_zero (member "low" depth))
    ∷ ("Delayed", or_zero (member "delayed" depth))
    ∷ []

abbrev pub cards_of : Tenths → Json → Cards
cards_of tenths stats = record {
  depths = depth_cards (or_empty (member "queueDepth" stats));
  throughput = or_zero (member "throughputPerMin" stats);
  failure_rate = percent_tenths tenths (or_zero (member "failureRateLastHour" stats));
  dead_letters = or_zero (member "dlqCount" stats);
}

-- The component; `none` is the notice that it waits for statistics.
unfoldable pub queue_stats : Tenths → Option Json → Option Cards
queue_stats tenths none = none
queue_stats tenths (some stats) = if truthy (some stats) then some (cards_of tenths stats) else none
