-- ===== src/Dashboard/Shell/Selected.antt =====
-- Which job the drawer of packages/dashboard/src/components/JobDetail.jsx shows.
use distributed_job_queue.Base.{
  ℕ, ◌≡◌, refl, sym, ap, subst, ◌∙◌, Bool, true, false, ◌&&◌, not, Option, none, some, List, [],
  ◌∷◌, ==_iff, if◌then◌else◌,
}
use distributed_job_queue.Job.{LogEntry}
use distributed_job_queue.Routes.Response.{JobBody, job_with_events}
use distributed_job_queue.Dashboard.Api.{Answer, got, refused}
use distributed_job_queue.Dashboard.JobDetail.{Detail, set_job, can_retry, can_cancel}
use distributed_job_queue.Dashboard.Shell.{
  Shell, Move, choose_tab, select, picked, close_detail, submitted, press_retry, press_cancel,
  arrived, acted, set_selected_job, is_some_id, offered, press, arrive, end_handler, end_refresh,
  move, move_all,
}

abbrev pub id_of : Option (JobBody × List LogEntry) → Option ℕ
id_of none = none
id_of (some (job, events)) = some job.id

-- `none`, or that job.
pub data Only (id : ℕ) : Option ℕ → Type 0 where
  nobody : Only id none
  itself : Only id (some id)

-- A move that neither closes the drawer nor selects another job.
pub data Stays (id : ℕ) : Move → Type 0 where
  tabs : {tab : _} → Stays id (choose_tab tab)
  selects : Stays id (select id)
  picks_none : Stays id (picked none)
  picks : Stays id (picked (some id))
  submits : Stays id submitted
  retries : Stays id press_retry
  cancels : Stays id press_cancel
  arrives : {time : ℕ} → Stays id (arrived time)
  ends : {a : Answer} {time : ℕ} → Stays id (acted a time)

pub data AllStay (id : ℕ) : List Move → Type 0 where
  done : AllStay id []
  and_then : {m : Move} {ms : List Move} → Stays id m → AllStay id ms → AllStay id (m ∷ ms)

-- Asked for the job, the server answers with that job or with an error.
abbrev pub Answers : (ℕ → ℕ → Answer) → ℕ → Type 0
Answers server id =
    (time : ℕ) (job : JobBody) (events : List LogEntry)
    → server time id ≡ got (job_with_events job events)
    → job.id ≡ id

pub record Shows (id : ℕ) (s : Shell) : Type 0 where
  pub selected : s.selected ≡ some id
  pub shown : id_of s.detail.job ≡ some id
  pub awaited : Only id s.awaited
  pub acting : Only id s.acting

set_job-shows :
    (id : ℕ) (a : Answer) (d : Detail)
    → ((job : JobBody) (events : List LogEntry)
        → a ≡ got (job_with_events job events)
        → job.id ≡ id)
    → id_of d.job ≡ some id
    → id_of (set_job d a).job ≡ some id
set_job-shows id (refused m) d h shown = shown
set_job-shows id (got (job_with_events job events)) d h shown = ap some (h job events refl)
set_job-shows id (got _) d h shown = shown

end_refresh-Shows :
    (id : ℕ) (a : Answer) (s : Shell)
    → ((job : JobBody) (events : List LogEntry)
        → a ≡ got (job_with_events job events)
        → job.id ≡ id)
    → Shows id s
    → Shows id (end_refresh a s)
end_refresh-Shows id (refused m) s h c = record {
  selected = c.selected;
  shown = c.shown;
  awaited = c.awaited;
  acting = nobody;
}
end_refresh-Shows id (got body) s h c = record {
  selected = c.selected;
  shown = set_job-shows id (got body) s.detail h c.shown;
  awaited = c.awaited;
  acting = nobody;
}

module _ (server : ℕ → ℕ → Answer) (id : ℕ) (h : Answers server id) where
  set_selected_job-Shows : (s : Shell) → Shows id s → Shows id (set_selected_job id s)
  set_selected_job-Shows s c =
      subst (λ b. Shows id (if b then s else record s { selected = some id; awaited = some id }))
        (sym (ap (λ o. is_some_id o id) c.selected ∙ (==_iff id id).1 refl)) c

  press-Shows : (can : JobBody → Bool) (s : Shell) → Shows id s → Shows id (press can s.selected s)
  press-Shows can s c =
      subst (λ o. Shows id (press can o s)) (sym c.selected)
        (either (offered can s.detail.job && not s.detail.busy))
    where
      either :
          (b : Bool)
          → Shows id (
              if b
              then record s { acting = some id; detail = record s.detail { busy = true } }
              else s)
      either true = record {
        selected = c.selected;
        shown = c.shown;
        awaited = c.awaited;
        acting = itself;
      }
      either false = c

  arrive-Shows :
      (time : ℕ) (o : Option ℕ) (s : Shell)
      → Only id o
      → Shows id s
      → Shows id (arrive server time o s)
  arrive-Shows time none s nobody c = c
  arrive-Shows time (some k) s itself c = record {
    selected = c.selected;
    shown = set_job-shows id (server time id) s.detail (h time) c.shown;
    awaited = nobody;
    acting = c.acting;
  }

  end_handler-Shows :
      (a : Answer) (time : ℕ) (o : Option ℕ) (s : Shell)
      → Only id o
      → Shows id s
      → Shows id (end_handler server a time o s)
  end_handler-Shows a time none s nobody c = c
  end_handler-Shows (refused m) time (some k) s itself c = record {
    selected = c.selected;
    shown = c.shown;
    awaited = c.awaited;
    acting = nobody;
  }
  end_handler-Shows (got body) time (some k) s itself c =
      end_refresh-Shows id (server time id) s (h time) c

  move-Shows : (s : Shell) (m : Move) → Stays id m → Shows id s → Shows id (move server s m)
  unfolding move
  move-Shows s (choose_tab tab) tabs c = record {
    selected = c.selected;
    shown = c.shown;
    awaited = c.awaited;
    acting = c.acting;
  }
  move-Shows s (select k) selects c = set_selected_job-Shows s c
  move-Shows s (picked none) picks_none c = c
  move-Shows s (picked (some k)) picks c = set_selected_job-Shows s c
  move-Shows s close_detail x c = elim x [ ]
  move-Shows s submitted submits c = record {
    selected = c.selected;
    shown = c.shown;
    awaited = c.awaited;
    acting = c.acting;
  }
  move-Shows s press_retry retries c = press-Shows can_retry s c
  move-Shows s press_cancel cancels c = press-Shows can_cancel s c
  move-Shows s (arrived time) arrives c = arrive-Shows time s.awaited s c.awaited c
  move-Shows s (acted a time) ends c = end_handler-Shows a time s.acting s c.acting c

  pub move_all-Shows :
      (s : Shell) (ms : List Move) → AllStay id ms → Shows id s → Shows id (move_all server s ms)
  unfolding move_all
  move_all-Shows s [] done c = c
  move_all-Shows s (m ∷ ms) (and_then now later) c =
      move_all-Shows (move server s m) ms later (move-Shows s m now c)
