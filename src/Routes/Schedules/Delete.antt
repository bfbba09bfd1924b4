-- ===== src/Routes/Schedules/Delete.antt =====
-- DELETE /schedules/:id of packages/server/src/routes/schedules.js.
use distributed_job_queue.Base.{
  ℕ, ◌≡◌, refl, ◌∙◌, ap, Option, none, some, List, [], ◌∷◌, not, arith, ◌==◌, if◌then◌else◌, length,
  keep,
}
use distributed_job_queue.Job.{Definition}
use distributed_job_queue.Store.Program.{ok}
use distributed_job_queue.Store.View.{View, find_definition}
use distributed_job_queue.Store.Server.{Server, IsReliable, run, run-play}
use distributed_job_queue.Routes.Response.{Response, not_found, nothing}
use distributed_job_queue.Routes.Schedules.{delete_schedule, send_deleted}

-- By whether there is such a schedule.
abbrev pub deletion_answer : Option Definition → Response
deletion_answer none = record { code = 404; body = not_found }
deletion_answer (some d) = record { code = 204; body = nothing }

send_deleted-length :
    (id : ℕ) (ds : List Definition)
    → send_deleted (length (keep (λ d. d.id == id) ds)) ≡ deletion_answer (find_definition id ds)
send_deleted-length id [] = refl
send_deleted-length id (d ∷ ds) = ground (arith, send_deleted-length id ds)

find_definition-deleted :
    (j id : ℕ) (ds : List Definition)
    → find_definition j (keep (λ d. not (d.id == id)) ds)
      ≡ (if j == id then none else find_definition j ds)
find_definition-deleted j id [] = ground arith
find_definition-deleted j id (d ∷ ds) = ground (arith, find_definition-deleted j id ds)

-- Against reliable services DELETE /schedules/:id answers 204 if there is such a schedule and 404 if
-- there is none. Then no schedule has the id, and any other id stands for the schedule that it
-- stood for before.
pub delete_schedule-answered :
    (srv : Server) (h : IsReliable srv) (id j : ℕ) (w : srv.World)
    → let ended = run srv (delete_schedule id) w in
      (ended.0 ≡ ok (deletion_answer (find_definition id (srv.view w).definitions)))
      × (find_definition j (srv.view ended.1).definitions
          ≡ (if j == id then none else find_definition j (srv.view w).definitions))
unfolding delete_schedule
delete_schedule-answered srv h id j w =
    let ds = (srv.view w).definitions in
    let agrees = run-play srv h (delete_schedule id) w in
    (
      agrees.0 ∙ ap ok (send_deleted-length id ds),
      ap (λ (v : View). find_definition j v.definitions) agrees.1 ∙ find_definition-deleted j id ds,
    )
