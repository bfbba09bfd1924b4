-- ===== src/Daemon.antt =====
-- start and shutdown of packages/reaper/src/index.js and packages/scheduler/src/index.js, and main with
-- shutdown of packages/server/src/index.js: processes with a timer. A tick is one call that the timer
-- makes (the reaper's and the scheduler's `tick`, the server's promoteDueDelayedJobs); the timer does
-- not wait for the one before.
mod Tests
pub mod Quiet
use distributed_job_queue.Base.{ℕ, ◌+◌, ◌≡◌, Bool, true, false, Option, none, some, List, [], ◌∷◌}
use distributed_job_queue.Store.View.{set_at, without}

pub data Kind : Type 0 where
  reaper scheduler server : Kind

-- What shutdown awaits.
pub data Closing : Type 0 where
  app_close pool_end : Closing

abbrev pub closings_of : Kind → List Closing
closings_of reaper = pool_end ∷ []
closings_of scheduler = pool_end ∷ []
closings_of server = app_close ∷ pool_end ∷ []

-- `ticks` are running, `begun` is their number so far. Each signal makes a call of shutdown, which has
-- these closings before it.
pub record Daemon : Type 0 where
  pub timer : Bool
  pub begun : ℕ
  pub ticks : List ℕ
  pub shutdowns : ℕ → Option (List Closing)
  pub exit_code : Option ℕ

unfoldable pub timer_set : Daemon
timer_set = record { timer = true; begun = 0; ticks = []; shutdowns = λ j. none; exit_code = none }

unfoldable pub tick_begins : Daemon → Daemon
tick_begins s = record s { begun = s.begun + 1; ticks = s.begun ∷ s.ticks }

-- With a result or an exception, which is logged.
unfoldable pub tick_settles : ℕ → Daemon → Daemon
tick_settles i s = record s { ticks = without i s.ticks }

unfoldable pub shut_down : Kind → (call : ℕ) → Daemon → Daemon
shut_down kind call s = record s {
  timer = false;
  shutdowns = set_at call (some (closings_of kind)) s.shutdowns;
}

module _ (kind : Kind) where
  pub data Step (s : Daemon) : Daemon → Type 0 where
    begins : s.exit_code ≡ none → s.timer ≡ true → Step s (tick_begins s)
    settles : (i : ℕ) → s.exit_code ≡ none → Step s (tick_settles i s)
    is_signalled : (j : ℕ) → s.exit_code ≡ none → s.shutdowns j ≡ none → Step s (shut_down kind j s)
    closes :
        (j : ℕ) (c : Closing) (cs : List Closing)
        → s.exit_code ≡ none
        → s.shutdowns j ≡ some (c ∷ cs)
        → Step s (record s { shutdowns = set_at j (some cs) s.shutdowns })
    -- The server catches what is rejected; in the others it is unhandled.
    cannot_close :
        (j : ℕ) (c : Closing) (cs : List Closing)
        → s.exit_code ≡ none
        → s.shutdowns j ≡ some (c ∷ cs)
        → Step s (record s { exit_code = some 1 })
    exits :
        (j : ℕ)
        → s.exit_code ≡ none
        → s.shutdowns j ≡ some []
        → Step s (record s { exit_code = some 0 })

  pub data Reach (s : Daemon) : Daemon → Type 0 where
    here : Reach s s
    next : {t u : Daemon} → Reach s t → Step t u → Reach s u
