-- ===== src/Routes/Schedules.antt =====
-- packages/server/src/routes/schedules.js. Postgres draws the id of a new row.
pub mod Delete
use distributed_job_queue.Base.{ℕ, zero, suc, String, Bool, true, Option, none, some, map}
use mathlib.Core.Option.{get_or}
use distributed_job_queue.Payload.{Json, bool, obj, end, member}
use distributed_job_queue.Job.{Priority, normal, Definition}
use distributed_job_queue.Store.Command.{
  insert_definition, select_definitions, set_enabled, delete_definition,
}
use distributed_job_queue.Store.Program.{Program, ret, await, ◌>>=◌}
use distributed_job_queue.Routes.Response.{
  Response, schedule_body, schedule_list, not_found, validation_error, nothing, serialize,
}

pub record ScheduleRequest : Type 0 where
  pub type : String
  pub cron_expression : String
  pub payload_template : Option Json
  pub priority : Option Priority
  pub max_retries : Option ℕ
  pub enabled : Option Bool

unfoldable pub new_definition : (id : ℕ) → ScheduleRequest → Definition
new_definition id req = record {
  id = id;
  type = req.type;
  cron_expression = req.cron_expression;
  payload_template = get_or req.payload_template (obj end);
  priority = get_or req.priority normal;
  max_retries = get_or req.max_retries 3;
  enabled = get_or req.enabled true;
  last_run_at = none;
}

unfoldable pub post_schedule : (id : ℕ) → ScheduleRequest → Program Response
unfolding new_definition serialize
post_schedule id req = do
  row ← await (insert_definition (new_definition id req))
  ret (record { code = 201; body = schedule_body (serialize row) })

unfoldable pub get_schedules : Program Response
unfolding serialize
get_schedules = do
  rows ← await select_definitions
  ret (record { code = 200; body = schedule_list (map serialize rows) })

-- `typeof enabled !== 'boolean'`.
abbrev as_boolean : Option Json → Option Bool
as_boolean (some (bool b)) = some b
as_boolean _ = none

abbrev pub enabled_of : Option Json → Option Bool
enabled_of none = none
enabled_of (some body) = as_boolean (member "enabled" body)

unfoldable pub send_schedule : Option Definition → Program Response
unfolding serialize
send_schedule none = ret (record { code = 404; body = not_found })
send_schedule (some row) = ret (record { code = 200; body = schedule_body (serialize row) })

unfoldable pub patch_schedule : (id : ℕ) → (body : Option Json) → Program Response
unfolding send_schedule
patch_schedule id body = elim (enabled_of body) [
  | none ↦ ret (record { code = 400; body = validation_error })
  | some enabled ↦ await (set_enabled enabled id) >>= send_schedule
]

-- `!rowCount`.
abbrev pub send_deleted : ℕ → Response
send_deleted zero = record { code = 404; body = not_found }
send_deleted (suc n) = record { code = 204; body = nothing }

unfoldable pub delete_schedule : (id : ℕ) → Program Response
delete_schedule id = await (delete_definition id) >>= λ n. ret (send_deleted n)
