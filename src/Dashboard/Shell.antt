-- ===== src/Dashboard/Shell.antt =====
-- App of packages/dashboard/src/App.jsx: the tabs, the job that is selected and the count that makes the
-- lists load again, with the state of JobDetail.jsx, which the page keeps whatever job is selected. The
-- server is a parameter: what it answers when asked for a job at a time. A handler of a button ends in
-- one step, and until then it stands under `acting` with the job it was started for.
mod Tests
pub mod Selected
pub mod Opened
use distributed_job_queue.Base.{
  ℕ, suc, Bool, true, false, ◌&&◌, not, Option, none, some, List, [], ◌∷◌, ◌==◌, if◌then◌else◌,
}
use distributed_job_queue.Job.{LogEntry}
use distributed_job_queue.Routes.Response.{JobBody}
use distributed_job_queue.Dashboard.Api.{Answer, got, refused}
use distributed_job_queue.Dashboard.JobDetail.{
  Detail, job_arrives, after_refresh, can_retry, can_cancel,
}

pub data Tab : Type 0 where
  overview dead_letter_queue submit_job : Tab

-- `awaited` is the job that the effect of JobDetail.jsx has asked for and that has not come; the cleanup
-- of the effect forgets it.
pub record Shell : Type 0 where
  pub tab : Tab
  pub selected : Option ℕ
  pub refresh_token : ℕ
  pub detail : Detail
  pub awaited : Option ℕ
  pub acting : Option ℕ

-- `arrived` is the answer to the effect's request, `acted` the end of a handler: the answer to its
-- request, after which it asks for the job. `picked` is a click in the feed, on an event that may have
-- no job.
pub data Move : Type 0 where
  choose_tab : Tab → Move
  select : ℕ → Move
  picked : Option ℕ → Move
  close_detail submitted press_retry press_cancel : Move
  arrived : (time : ℕ) → Move
  acted : Answer → (time : ℕ) → Move

abbrev pub bump : Shell → Shell
bump s = record s { refresh_token = suc s.refresh_token }

abbrev pub is_some_id : Option ℕ → ℕ → Bool
is_some_id none id = false
is_some_id (some k) id = k == id

-- The effect runs where the job has changed.
abbrev pub set_selected_job : ℕ → Shell → Shell
set_selected_job id s =
    if is_some_id s.selected id then s else record s { selected = some id; awaited = some id }

abbrev pub offered : (JobBody → Bool) → Option (JobBody × List LogEntry) → Bool
offered can none = false
offered can (some (job, events)) = can job

-- A button is drawn in the drawer of a selected job, from the job that is shown, and is disabled while
-- a handler runs. The handler is for the job selected.
abbrev pub press : (JobBody → Bool) → Option ℕ → Shell → Shell
press can none s = s
press can (some id) s =
    if offered can s.detail.job && not s.detail.busy
    then record s { acting = some id; detail = record s.detail { busy = true } }
    else s

abbrev pub pick : Option ℕ → Shell → Shell
pick none s = s
pick (some id) s = set_selected_job id s

-- What the handler makes of the answer to its second request.
abbrev pub end_refresh : Answer → Shell → Shell
end_refresh (refused m) s = record s { acting = none; detail = after_refresh s.detail (refused m) }
end_refresh (got body) s =
    bump (record s { acting = none; detail = after_refresh s.detail (got body) })

module _ (server : (time : ℕ) → ℕ → Answer) where
  abbrev pub arrive : ℕ → Option ℕ → Shell → Shell
  arrive time none s = s
  arrive time (some id) s = record s {
    awaited = none;
    detail = job_arrives false s.detail (server time id);
  }

  abbrev pub end_handler : Answer → ℕ → Option ℕ → Shell → Shell
  end_handler a time none s = s
  end_handler (refused m) time (some id) s = record s {
    acting = none;
    detail = record s.detail { error = some m; busy = false };
  }
  end_handler (got body) time (some id) s = end_refresh (server time id) s

  unfoldable pub move : Shell → Move → Shell
  move s (choose_tab tab) = record s { tab = tab }
  move s (select id) = set_selected_job id s
  move s (picked id) = pick id s
  move s close_detail = record s { selected = none; awaited = none }
  move s submitted = bump s
  move s press_retry = press can_retry s.selected s
  move s press_cancel = press can_cancel s.selected s
  move s (arrived time) = arrive time s.awaited s
  move s (acted a time) = end_handler a time s.acting s

  unfoldable pub move_all : Shell → List Move → Shell
  unfolding move
  move_all s [] = s
  move_all s (m ∷ ms) = move_all (move s m) ms
