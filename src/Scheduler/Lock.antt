-- ===== src/Scheduler/Lock.antt =====
-- The lock of tick in packages/scheduler/src/index.js (FR-3.3).
use distributed_job_queue.Base.{ℕ, ◌≡◌, refl, ap, Bool, true, false, ◌==◌, ==_refl, if◌then◌else◌}
use distributed_job_queue.Job.{Definition}
use distributed_job_queue.Store.Command.{
  Command, Reply, scheduler_lock, set_nx_px, release_lock, publish,
}
use distributed_job_queue.Store.Program.{Result, ok, err, ret, try_catch}
use distributed_job_queue.Store.Server.{Server}
use distributed_job_queue.Store.Protocol.{
  Protocol, Follows, trace, trace-Follows, state_after, trace-Ends, try_finally-Ends, Obeys,
  Obeys-await, Obeys-ret,
}
use distributed_job_queue.Store.Protocol.Steady.{
  IsSteady, IsSteady-ret, IsSteady-await, IsSteady-last, IsSteady-if, IsSteady-try_catch,
  IsSteady-for_each, try_finally-Obeys,
}
use distributed_job_queue.Scheduler.Stored.{fired}
use distributed_job_queue.Scheduler.{
  CronParser, Config, tick, fire_due, fire_if_due, fire_scheduled_job, is_due,
}

-- Whether the instance holds the scheduler's lock: from the answer that grants it until the command
-- that releases it, which takes the lock away only from its owner.
abbrev locked_by : (instance_id : ℕ) → Bool → (c : Command) → Result (Reply c) → Bool
locked_by instance_id h (set_nx_px k v ms) (ok granted) = granted
locked_by instance_id h (release_lock k v) r = if v == instance_id then false else h
locked_by instance_id h c r = h

-- The lock is taken under the scheduler's key for the instance, and only its own lock is released.
abbrev NeedsLock : (instance_id : ℕ) → Bool → Command → Type 0
NeedsLock instance_id h (set_nx_px k v ms) = (k ≡ scheduler_lock) × (v ≡ instance_id)
NeedsLock instance_id h (release_lock k v) = (h ≡ true) × (k ≡ scheduler_lock) × (v ≡ instance_id)
NeedsLock instance_id h c = h ≡ true

-- Every command but the attempt to take the lock needs the lock.
abbrev pub lock : (instance_id : ℕ) → Protocol
lock instance_id = record {
  State = Bool;
  next = locked_by instance_id;
  Permits = NeedsLock instance_id;
}

abbrev IsFree : Bool → Type 0
IsFree h = h ≡ false

fire_scheduled_job-IsSteady :
    (instance_id : ℕ) (cfg : Config) (def : Definition) (id now : ℕ)
    → IsSteady (lock instance_id) true (fire_scheduled_job cfg def id now)
unfolding fire_scheduled_job
fire_scheduled_job-IsSteady instance_id cfg def id now =
    IsSteady-await _ _ _ (refl, λ r. refl)
      λ job.
        IsSteady-await _ _ _ (refl, λ r. refl)
          λ _.
            IsSteady-await _ _ _ (refl, λ r. refl)
              λ _.
                IsSteady-await _ _ _ (refl, λ r. refl)
                  λ _.
                    IsSteady-await _ _ _ (refl, λ r. refl)
                      λ _. IsSteady-last true (publish (fired id)) (refl, λ r. refl)

module _ (parser : CronParser) (cfg : Config) (instance_id : ℕ) (draw : ℕ → ℕ) (now : ℕ) where
  fire_if_due-IsSteady :
      (def : Definition) → IsSteady (lock instance_id) true (fire_if_due parser cfg draw now def)
  unfolding fire_if_due
  fire_if_due-IsSteady def =
      IsSteady-if true (is_due parser def now) _ (ret tt)
        (fire_scheduled_job-IsSteady instance_id cfg def (draw def.id) now) (IsSteady-ret true tt)

  fire_due-IsSteady : IsSteady (lock instance_id) true (fire_due parser cfg draw now)
  unfolding fire_due
  fire_due-IsSteady =
      IsSteady-await _ _ _ (refl, λ r. refl)
        λ defs. IsSteady-for_each _ defs _ _ (λ def _. fire_if_due-IsSteady def)

  tick-Obeys : Obeys (lock instance_id) false (tick parser cfg instance_id draw now)
  unfolding tick
  tick-Obeys =
      Obeys-await false (set_nx_px scheduler_lock instance_id cfg.lock_ttl_ms) _ (refl, refl)
        (elim [
          | true ↦
              try_finally-Obeys true _ (release_lock scheduler_lock instance_id)
                (IsSteady-try_catch true _ _ fire_due-IsSteady (λ _. IsSteady-ret true tt))
                (refl, refl, refl)
          | false ↦ Obeys-ret false tt
        ])

-- Whatever the services answer, refusals included, a tick of the scheduler asks for the lock under the
-- scheduler's key as its own instance; it reads schedules, inserts jobs, pushes them and publishes
-- events only between the answer that grants it the lock and the release that it sends, under the same
-- key and as the same owner; and however the tick ends, it has sent that release for a lock that it was
-- granted. (That the lock may expire in between is not part of this.)
pub tick-lock :
    (srv : Server) (parser : CronParser) (cfg : Config) (instance_id : ℕ) (draw : ℕ → ℕ) (now : ℕ)
    (w : srv.World)
    → Follows (lock instance_id) false (trace srv (tick parser cfg instance_id draw now) w)
      × (state_after (lock instance_id) false (trace srv (tick parser cfg instance_id draw now) w)
          ≡ false)
unfolding tick
tick-lock srv parser cfg instance_id draw now w = (
  trace-Follows srv false (tick parser cfg instance_id draw now) w
      (tick-Obeys parser cfg instance_id draw now),
  trace-Ends (lock instance_id) srv IsFree false (tick parser cfg instance_id draw now) w (elim [
    | ok true ↦
        try_finally-Ends (lock instance_id) IsFree true
          (try_catch (fire_due parser cfg draw now) (λ _. ret tt))
          (release_lock scheduler_lock instance_id)
          (λ t r. ap (λ b. if b then false else t) (==_refl instance_id))
    | ok false ↦ refl
    | err e ↦ refl
  ]),
)
