-- ===== src/Worker/Main.antt =====
-- The worker process: main and shutdown of packages/worker/src/index.js with drain of shutdown.js, as
-- a machine whose steps are what happens at each await. The commands of a lane are those of
-- Worker/Lane.antt; here a claim answers, fails or finds nothing, and processJob settles.
mod Tests
pub mod Invariant
pub mod Drained
use distributed_job_queue.Base.{
  ℕ, ◌+◌, ◌≡◌, Bool, true, false, ◌||◌, Option, none, some, List, [], ◌∷◌, ltb, leb, ◌==◌,
  if◌then◌else◌, count, length,
}
use distributed_job_queue.Store.View.{set_at, without}

-- A lane waits for claimNextJob, sleeps after a failed claim, runs processJob, or has left its loop.
pub data Lane : Type 0 where
  claiming sleeping : Lane
  busy : (id : ℕ) → Lane
  finished : Lane

-- A call of shutdown: in the loop of drain, at `Promise.allSettled(lanes)`, at deregisterWorker, or
-- at `pool.end()`.
pub data Shutdown : Type 0 where
  in_drain : (deadline : ℕ) → Shutdown
  settling deregistering closing : Shutdown

pub data Life : Type 0 where
  registering up : Life
  exited : (code : ℕ) → Life

-- `registered` is the worker's entry in `workers:active`. Each signal makes a call of shutdown.
pub record Worker : Type 0 where
  pub life : Life
  pub registered : Bool
  pub draining : Bool
  pub in_flight : List ℕ
  pub lanes : ℕ → Lane
  pub shutdowns : ℕ → Option Shutdown

-- `inFlight.add` and `inFlight.delete`, of a Set.
abbrev pub add_id : ℕ → List ℕ → List ℕ
add_id id ids = if count id ids == 0 then id ∷ ids else ids

-- `while (!shutdownController.isDraining())`.
abbrev pub loop_head : Bool → Lane
loop_head draining = if draining then finished else claiming

unfoldable pub launched : Worker
launched = record {
  life = registering;
  registered = false;
  draining = false;
  in_flight = [];
  lanes = λ i. finished;
  shutdowns = λ j. none;
}

-- main once registerWorker has settled: the lanes start, or the process exits with 1.
unfoldable pub start_lanes : (concurrency : ℕ) → Worker → Worker
start_lanes concurrency s = record s {
  life = up;
  registered = true;
  lanes = λ i. if ltb i concurrency then loop_head s.draining else finished;
}

unfoldable pub claim_answers : (lane : ℕ) → Option ℕ → Worker → Worker
claim_answers lane none s = record s { lanes = set_at lane (loop_head s.draining) s.lanes }
claim_answers lane (some id) s = record s {
  in_flight = add_id id s.in_flight;
  lanes = set_at lane (busy id) s.lanes;
}

unfoldable pub claim_fails : (lane : ℕ) → Worker → Worker
claim_fails lane s = record s { lanes = set_at lane sleeping s.lanes }

unfoldable pub wakes : (lane : ℕ) → Worker → Worker
wakes lane s = record s { lanes = set_at lane (loop_head s.draining) s.lanes }

-- processJob settles, with a result or an exception: the `finally`, and the loop's test.
unfoldable pub job_settles : (lane id : ℕ) → Worker → Worker
job_settles lane id s = record s {
  in_flight = without id s.in_flight;
  lanes = set_at lane (loop_head s.draining) s.lanes;
}

-- The test of the waiting loop of drain.
abbrev pub waits_on : (deadline now : ℕ) → List ℕ → Shutdown
waits_on deadline now ids =
    if length ids == 0 || leb deadline now then settling else in_drain deadline

unfoldable pub signal : (grace_period_ms call now : ℕ) → Worker → Worker
signal grace_period_ms call now s = record s {
  draining = true;
  shutdowns =
      set_at call
        (some (if s.draining then settling else waits_on (now + grace_period_ms) now s.in_flight))
        s.shutdowns;
}

unfoldable pub poll : (call deadline now : ℕ) → Worker → Worker
poll call deadline now s = record s {
  shutdowns = set_at call (some (waits_on deadline now s.in_flight)) s.shutdowns;
}

abbrev pub AllFinished : Worker → Type 0
AllFinished s = (i : ℕ) → s.lanes i ≡ finished

module _ (concurrency grace_period_ms : ℕ) where
  pub data Step (s : Worker) : Worker → Type 0 where
    registers : s.life ≡ registering → Step s (start_lanes concurrency s)
    -- A command that is refused may have run.
    cannot_register :
        (registered : Bool)
        → s.life ≡ registering
        → Step s (record s { life = exited 1; registered = registered })
    answers :
        (i : ℕ) (claimed : Option ℕ)
        → s.life ≡ up
        → s.lanes i ≡ claiming
        → Step s (claim_answers i claimed s)
    fails : (i : ℕ) → s.life ≡ up → s.lanes i ≡ claiming → Step s (claim_fails i s)
    sleeps_enough : (i : ℕ) → s.life ≡ up → s.lanes i ≡ sleeping → Step s (wakes i s)
    settles : (i id : ℕ) → s.life ≡ up → s.lanes i ≡ busy id → Step s (job_settles i id s)
    is_signalled :
        (j now : ℕ) → s.life ≡ up → s.shutdowns j ≡ none → Step s (signal grace_period_ms j now s)
    polls :
        (j deadline now : ℕ)
        → s.life ≡ up
        → s.shutdowns j ≡ some (in_drain deadline)
        → Step s (poll j deadline now s)
    lanes_settle :
        (j : ℕ)
        → s.life ≡ up
        → s.shutdowns j ≡ some settling
        → AllFinished s
        → Step s (record s { shutdowns = set_at j (some deregistering) s.shutdowns })
    deregisters :
        (j : ℕ)
        → s.life ≡ up
        → s.shutdowns j ≡ some deregistering
        → Step s (record s { registered = false; shutdowns = set_at j (some closing) s.shutdowns })
    -- A rejection in shutdown is unhandled, and ends the process.
    cannot_deregister :
        (j : ℕ) (registered : Bool)
        → s.life ≡ up
        → s.shutdowns j ≡ some deregistering
        → Step s (record s { life = exited 1; registered = registered })
    exits :
        (j code : ℕ)
        → s.life ≡ up
        → s.shutdowns j ≡ some closing
        → Step s (record s { life = exited code })

  pub data Reach (s : Worker) : Worker → Type 0 where
    here : Reach s s
    next : {t u : Worker} → Reach s t → Step t u → Reach s u
