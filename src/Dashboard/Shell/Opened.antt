-- ===== src/Dashboard/Shell/Opened.antt =====
-- The drawer of packages/dashboard/src/components/JobDetail.jsx when another job is selected.
use distributed_job_queue.Base.{
  ℕ, ◌≡◌, refl, sym, ap, subst, inl, inr, Bool-cases, true, false, Option, none, some, List, [],
  ◌∷◌, ◌==◌, ==_iff, if◌then◌else◌,
}
use distributed_job_queue.Job.{LogEntry}
use distributed_job_queue.Routes.Response.{JobBody, job_with_events}
use distributed_job_queue.Dashboard.Api.{Answer, got}
use distributed_job_queue.Dashboard.JobDetail.{can_retry, job_arrives}
use distributed_job_queue.Dashboard.Shell.{
  Shell, Move, select, press_retry, arrived, set_selected_job, is_some_id, offered, press, arrive,
  move, move_all,
}
use distributed_job_queue.Dashboard.Shell.Selected.{
  Only, nobody, AllStay, Answers, Shows, move_all-Shows,
}

other_job : (o : Option ℕ) (id : ℕ) → ¬ (o ≡ some id) → is_some_id o id ≡ false
other_job none id other = refl
other_job (some k) id other = elim (Bool-cases (k == id)) [
  | inl same ↦ absurd (other (ap some ((==_iff k id).0 same)))
  | inr differs ↦ differs
]

set_selected_job-new :
    (id : ℕ) (s : Shell)
    → ¬ (s.selected ≡ some id)
    → set_selected_job id s ≡ record s { selected = some id; awaited = some id }
set_selected_job-new id s other =
    ap (λ b. if b then s else record s { selected = some id; awaited = some id })
      (other_job s.selected id other)

module _ (server : ℕ → ℕ → Answer) (id : ℕ) (h : Answers server id) where
  opened-Shows :
      (s : Shell) (time : ℕ) (job : JobBody) (events : List LogEntry)
      → s.acting ≡ none
      → ¬ (s.selected ≡ some id)
      → server time id ≡ got (job_with_events job events)
      → Shows id (move server (move server s (select id)) (arrived time))
  unfolding move
  opened-Shows s time job events idle other answers =
      subst (λ s'. Shows id (arrive server time s'.awaited s'))
        (sym (set_selected_job-new id s other))
        (subst
          (λ a. Shows id (record s {
            selected = some id;
            awaited = none;
            detail = job_arrives false s.detail a;
          }))
          (sym answers)
          (record {
            selected = refl;
            shown = ap some (h time job events answers);
            awaited = nobody;
            acting = subst (Only id) (sym idle) nobody;
          }))

-- Let no handler of a button be running and another job, or none, be selected, and let the server answer
-- a request for a job with that job or with an error. From when a job is selected and its details have
-- come, as long as the drawer is not closed and no other job is selected, that job stays selected, the
-- drawer shows its details and no others, and a button's handler that runs is for that job, whatever is
-- clicked and whatever the server answers.
pub move_all-shows :
    (server : ℕ → ℕ → Answer) (id : ℕ) (s : Shell) (time : ℕ) (job : JobBody)
    (events : List LogEntry) (ms : List Move)
    → Answers server id
    → s.acting ≡ none
    → ¬ (s.selected ≡ some id)
    → server time id ≡ got (job_with_events job events)
    → AllStay id ms
    → Shows id (move_all server s (select id ∷ arrived time ∷ ms))
unfolding move_all
move_all-shows server id s time job events ms h idle other answers stay =
    move_all-Shows server id h (move server (move server s (select id)) (arrived time)) ms stay
      (opened-Shows server id h s time job events idle other answers)

-- But between: where no handler is running and a job is shown that may be retried, as soon as another
-- job is selected, the button of the job that is shown starts a handler for the other one.
pub press_retry-stale :
    (server : ℕ → ℕ → Answer) (id : ℕ) (s : Shell)
    → offered can_retry s.detail.job ≡ true
    → s.detail.busy ≡ false
    → ¬ (s.selected ≡ some id)
    → let s' = move_all server s (select id ∷ press_retry ∷ []) in
      (s'.acting ≡ some id) × (s'.detail.job ≡ s.detail.job)
unfolding move_all move
press_retry-stale server id s can idle other =
    subst
      (λ s'.
        ((press can_retry s'.selected s').acting ≡ some id)
        × ((press can_retry s'.selected s').detail.job ≡ s.detail.job))
      (sym (set_selected_job-new id s other)) (rw can (rw idle (refl, refl)))
