-- ===== src/Worker/Lane/Survival.antt =====
-- No failure of the services ends a lane of packages/worker/src/index.js.
use distributed_job_queue.Base.{
  ℕ, ◌≡◌, refl, Bool, true, false, Option, none, some, List, [], ◌∷◌, if◌then◌else◌,
}
use distributed_job_queue.Job.{Error}
use distributed_job_queue.Store.Command.{Reply}
use distributed_job_queue.Store.Program.{
  Result, ok, Program, ret, throw, call, ◌>>=◌, ◌>>◌, try_catch,
}
use distributed_job_queue.Store.Server.{Server, run}
use distributed_job_queue.Worker.Claim.{claim_next_job, Claimed}
use distributed_job_queue.Worker.Process.{Config, Readings, process_job}
use distributed_job_queue.Worker.Lane.{Turn, run_lane, try_claim, try_process}

-- Whatever is answered, the program does not end with an exception.
abbrev CannotThrow : {A : Type 0} → Program A → Type 0
CannotThrow (ret a) = Unit
CannotThrow (throw e) = ⊥
CannotThrow (call c k) = (r : Result (Reply c)) → CannotThrow (k r)

module _ {A : Type 0} where
  try_catch-CannotThrow :
      (m : Program A) (f : Error → Program A)
      → ((e : Error) → CannotThrow (f e))
      → CannotThrow (try_catch m f)
  try_catch-CannotThrow (ret a) f h = tt
  try_catch-CannotThrow (throw e) f h = h e
  try_catch-CannotThrow (call c k) f h = λ r. try_catch-CannotThrow (k r) f h

  bind-CannotThrow :
      {B : Type 0} (m : Program A) (f : A → Program B)
      → CannotThrow m
      → ((a : A) → CannotThrow (f a))
      → CannotThrow (m >>= f)
  bind-CannotThrow (ret a) f h q = q a
  bind-CannotThrow (throw e) f h q = absurd h
  bind-CannotThrow (call c k) f h q = λ r. bind-CannotThrow (k r) f (h r) q

  run-CannotThrow :
      (srv : Server) (p : Program A) (w : srv.World)
      → CannotThrow p
      → (a : A) × ((run srv p w).0 ≡ ok a)
  unfolding run
  run-CannotThrow srv (ret a) w h = (a, refl)
  run-CannotThrow srv (throw e) w h = absurd h
  run-CannotThrow srv (call c k) w h =
      run-CannotThrow srv (k (srv.exec c w).0) (srv.exec c w).1 (h (srv.exec c w).0)

try_process-CannotThrow :
    (cfg : Config) (worker : ℕ) (t : Readings) (c : Option Claimed)
    → CannotThrow (try_process cfg worker t c)
unfolding try_process
try_process-CannotThrow cfg worker t none = tt
try_process-CannotThrow cfg worker t (some c) =
    try_catch-CannotThrow (process_job cfg t worker c >> ret tt) (λ _. ret tt) (λ _. tt)

unless_draining :
    (b : Bool) (p : Program Unit) → CannotThrow p → CannotThrow (if b then ret tt else p)
unless_draining true p h = tt
unless_draining false p h = h

run_lane-CannotThrow :
    (cfg : Config) (worker : ℕ) (turns : List Turn) → CannotThrow (run_lane cfg worker turns)
unfolding run_lane try_claim
run_lane-CannotThrow cfg worker [] = tt
run_lane-CannotThrow cfg worker (turn ∷ turns) = unless_draining turn.is_draining _ (
    bind-CannotThrow (try_claim worker turn.now) _
      (try_catch-CannotThrow (claim_next_job worker turn.now 1) (λ _. ret none) (λ _. tt))
      (λ c.
        bind-CannotThrow (try_process cfg worker turn.readings c) (λ _. run_lane cfg worker turns)
          (try_process-CannotThrow cfg worker turn.readings c)
          (λ _. run_lane-CannotThrow cfg worker turns)))

-- Whatever the services answer or refuse, in claims and in the processing of jobs, no exception
-- leaves the loop of a lane: every finite part of it ends normally.
pub run_lane-survives :
    (srv : Server) (cfg : Config) (worker : ℕ) (turns : List Turn) (w : srv.World)
    → (run srv (run_lane cfg worker turns) w).0 ≡ ok tt
run_lane-survives srv cfg worker turns w =
    (run-CannotThrow srv (run_lane cfg worker turns) w (run_lane-CannotThrow cfg worker turns)).1
