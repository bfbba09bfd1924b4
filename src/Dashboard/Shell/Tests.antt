-- ===== src/Dashboard/Shell/Tests.antt =====
-- A job that is selected while another one is shown.
use distributed_job_queue.Base.{
  ℕ, ◌≡◌, refl, false, none, some, List, [], ◌∷◌, ◌==◌, arith, if◌then◌else◌,
}
use distributed_job_queue.Samples.{row_7}
use distributed_job_queue.Job.{dead}
use distributed_job_queue.Routes.Response.{JobBody, serialize_job, not_found, job_with_events}
use distributed_job_queue.Dashboard.Api.{Answer, got, refused, said}
use distributed_job_queue.Dashboard.Shell.{
  Shell, Move, overview, submit_job, choose_tab, select, press_retry, arrived, acted, move_all,
}
use distributed_job_queue.Dashboard.Shell.Selected.{
  Shows, Answers, done, and_then, tabs, arrives, retries, ends,
}
use distributed_job_queue.Dashboard.Shell.Opened.{move_all-shows, press_retry-stale}

abbrev job_8 : JobBody
job_8 = record (serialize_job row_7) { id = 8; status = dead }

abbrev job_9 : JobBody
job_9 = record (serialize_job row_7) { id = 9; status = dead }

-- The job as it was asked for, but no answer at time 3.
abbrev server : ℕ → ℕ → Answer
server time id =
    if time == 3
    then refused (said not_found)
    else got (job_with_events (record job_8 { id = id }) [])

-- Job 8 is shown.
abbrev before : Shell
before = record {
  tab = overview;
  selected = some 8;
  refresh_token = 0;
  detail = record { job = some (job_8, []); error = none; busy = false; changes = 0 };
  awaited = none;
  acting = none;
}

honest : Answers server 9
honest time job events e = ground (arith, e)

another : ¬ (before.selected ≡ some 9)
another e = cc e

abbrev clicks : List Move
clicks = press_retry ∷ choose_tab submit_job ∷ arrived 2 ∷ acted (got not_found) 3 ∷ []

move_all-shows_example : Shows 9 (move_all server before (select 9 ∷ arrived 1 ∷ clicks))
unfolding serialize_job
move_all-shows_example =
    move_all-shows server 9 before 1 job_9 [] clicks honest refl another refl
      (and_then retries (and_then tabs (and_then arrives (and_then ends done))))

press_retry-stale_example :
    let s' = move_all server before (select 9 ∷ press_retry ∷ []) in
    (s'.acting ≡ some 9) × (s'.detail.job ≡ some (job_8, []))
press_retry-stale_example = press_retry-stale server 9 before refl refl another
