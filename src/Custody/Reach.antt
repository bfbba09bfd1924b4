-- ===== src/Custody/Reach.antt =====
-- Any number of claimers, releasers, heartbeats, promoters, reapers, cancellations, enqueuers and
-- firings of the scheduler at once, against services that may refuse commands or lose answers.
use distributed_job_queue.Base.{
  ℕ, ◌≡◌, refl, sym, subst, ◌⊎◌, inl, inr, Bool, true, false, Option, none, some, ◌==◌, Bool-cases,
  count,
}
use distributed_job_queue.Store.Command.{ListKey}
use distributed_job_queue.Store.Program.{Program, call}
use distributed_job_queue.Store.View.{View, set_at, has_member}
use distributed_job_queue.Store.System.{
  Services, IsDocumented, System, Step, send, expire, Reach, here, next, thread,
}
use distributed_job_queue.Store.Protocol.{Obeys-thread}
use distributed_job_queue.Custody.Protocol.{Obeys, next_hand}
use distributed_job_queue.Custody.Invariant.{Place, in_list, in_delayed, in_hand}
use distributed_job_queue.Custody.Steps.{HeldIn, command_kept}
use distributed_job_queue.Custody.Threads.{
  claim_next_job-Obeys, release_job-Obeys, heartbeat-Obeys, promote_due_delayed_jobs-Obeys,
  cancel_job-Obeys, enqueue_job-Obeys,
}
use distributed_job_queue.Custody.Reaping.{tick-Obeys}
use distributed_job_queue.Worker.Claim.{claim_next_job, release_job, heartbeat}
use distributed_job_queue.Queue
use distributed_job_queue.Queue.{Request, promote_due_delayed_jobs, cancel_job, enqueue_job}
use distributed_job_queue.Reaper
use distributed_job_queue.Scheduler
use distributed_job_queue.Scheduler.{fire_scheduled_job}
use distributed_job_queue.Job.{Definition}
use distributed_job_queue.Custody.Firing.{fire_scheduled_job-Obeys}

-- The job is in no list but the one of its place, there once, and delayed only if that is its place.
pub record IsOnlyAt (id : ℕ) (v : View) (p : Place) : Type 0 where
  pub in_lists :
      (k : ListKey) → (count id (v.lists k) ≡ 0) ⊎ ((count id (v.lists k) ≡ 1) × (p ≡ in_list k))
  pub in_set : (has_member id v.delayed_set ≡ false) ⊎ (p ≡ in_delayed)

-- The processes of the program that run at once, with what each is called with.
pub data Process : Type 0 where
  claims : (worker now seconds : ℕ) → Process
  releases : (worker id : ℕ) → Process
  beats : (id now : ℕ) → Process
  promotes : (now limit : ℕ) → Process
  reaps : Reaper.Config → Reaper.Readings → Process
  cancels : (id : ℕ) → Process
  enqueues : Queue.Config → (id now : ℕ) → Request → Process
  fires : Scheduler.Config → Definition → (id now : ℕ) → Process

unfoldable pub program_of : Process → Program Unit
program_of (claims worker now seconds) = thread (claim_next_job worker now seconds)
program_of (releases worker id) = thread (release_job worker id)
program_of (beats id now) = thread (heartbeat id now)
program_of (promotes now limit) = thread (promote_due_delayed_jobs now limit)
program_of (reaps cfg t) = thread (Reaper.tick cfg t)
program_of (cancels id) = thread (cancel_job id)
program_of (enqueues cfg id now req) = thread (enqueue_job cfg id now req)
program_of (fires cfg def id now) = thread (fire_scheduled_job cfg def id now)

-- The id that a process brings into the system.
abbrev pub drawn : Process → Option ℕ
drawn (enqueues cfg id now req) = some id
drawn (fires cfg def id now) = some id
drawn _ = none

program_of-Obeys : (p : Process) → Obeys (drawn p) (program_of p)
unfolding program_of
program_of-Obeys (claims worker now seconds) =
    Obeys-thread _ _ (claim_next_job-Obeys worker now seconds none)
program_of-Obeys (releases worker id) = Obeys-thread _ _ (release_job-Obeys worker id none)
program_of-Obeys (beats id now) = Obeys-thread _ _ (heartbeat-Obeys id now none)
program_of-Obeys (promotes now limit) =
    Obeys-thread _ _ (promote_due_delayed_jobs-Obeys now limit none)
program_of-Obeys (reaps cfg t) = Obeys-thread _ _ (tick-Obeys cfg t none)
program_of-Obeys (cancels id) = Obeys-thread _ _ (cancel_job-Obeys id none)
program_of-Obeys (enqueues cfg id now req) = Obeys-thread _ _ (enqueue_job-Obeys cfg id now req)
program_of-Obeys (fires cfg def id now) = Obeys-thread _ _ (fire_scheduled_job-Obeys cfg def id now)

-- The invariant of the whole system, for one job.
record Safe (id : ℕ) (s : System) : Type 0 where
  hands : ℕ → Option ℕ
  obeying : (i : ℕ) → Obeys (hands i) (s.threads i)
  place : Place
  held : HeldIn id s.view hands place

update-Obeys :
    (hands : ℕ → Option ℕ) (threads : ℕ → Program Unit) (i : ℕ) (x : Option ℕ) (p : Program Unit)
    → ((j : ℕ) → Obeys (hands j) (threads j))
    → Obeys x p
    → (j : ℕ) → Obeys (set_at i x hands j) (set_at i p threads j)
update-Obeys hands threads i x p all o j = elim (Bool-cases (j == i)) [
  | inl e ↦ rw e o
  | inr e ↦ rw e (all j)
]

module _ (Serves : Services) (documented : IsDocumented Serves) {id : ℕ} where
  Step-Safe : {s s' : System} → Step Serves s s' → Safe id s → Safe id s'
  Step-Safe {s} {s'} (send i c k r at_i served moved) safe =
      let o : Obeys (safe.hands i) (call c k) =
        subst (Obeys (safe.hands i)) at_i (safe.obeying i) in
      let (q, h) =
        command_kept id s.view safe.hands safe.place safe.held i c r s'.view
          (documented c s.view r s'.view served) o.sends.0 in
      record {
        hands = set_at i (next_hand (safe.hands i) c r) safe.hands;
        obeying =
            subst
              (λ t. (j : ℕ) → Obeys (set_at i (next_hand (safe.hands i) c r) safe.hands j) (t j))
              (sym moved)
              (update-Obeys safe.hands s.threads i _ (k r) safe.obeying
                (record { sends = o.sends.1 r }));
        place = q;
        held = h;
      }
  Step-Safe {s} (expire strings buckets e) safe =
      subst (Safe id) (sym e) (record {
        hands = safe.hands;
        obeying = safe.obeying;
        place = safe.place;
        held = safe.held;
      })

  Reach-Safe : {s s' : System} → Safe id s → Reach Serves s s' → Safe id s'
  Reach-Safe safe here = safe
  Reach-Safe safe (next r st) = Step-Safe st (Reach-Safe safe r)

abbrev pub start : (ℕ → Process) → View → System
start processes v = record { view = v; threads = λ i. program_of (processes i) }

-- Let the services do only what their documentation says, be it that they refuse a command or lose
-- an answer, and let any claimers, releasers, heartbeats, promoters, reapers, cancellations,
-- enqueuers and firings of the scheduler run at once, in any order, stopping anywhere. (Workers that
-- schedule a retry, and retries by an operator, are not among them.) If a job was in at most one
-- place at the start, and a process that enqueues or fires under its id is the only one and finds
-- the id nowhere, then the job is in at most one place in every state that is reached: never in two
-- lists, in one list twice, or in a list and delayed.
pub Reach-IsOnlyAt :
    (Serves : Services)
    → IsDocumented Serves
    → (processes : ℕ → Process) (v : View) (s : System) (id : ℕ) (p : Place) → IsOnlyAt id v p
    → ((i : ℕ) → drawn (processes i) ≡ some id → p ≡ in_hand i)
    → Reach Serves (start processes v) s
    → (q : Place) × IsOnlyAt id s.view q
Reach-IsOnlyAt Serves documented processes v s id p only fresh r = (
  after.place,
  record {
    in_lists = after.held.in_lists;
    in_set = set_cases (has_member id s.view.delayed_set) refl;
  },
)
  where
    before : Safe id (start processes v)
    before = record {
      hands = λ i. drawn (processes i);
      obeying = λ i. program_of-Obeys (processes i);
      place = p;
      held = record {
        in_lists = only.in_lists;
        in_set = λ m. elim only.in_set [ inl e ↦ cc | inr e ↦ e ];
        in_hands = fresh;
      };
    }

    after : Safe id s
    after = Reach-Safe Serves documented before r

    set_cases :
        (b : Bool)
        → has_member id s.view.delayed_set ≡ b
        → (has_member id s.view.delayed_set ≡ false) ⊎ (after.place ≡ in_delayed)
    set_cases false e = inl e
    set_cases true e = inr (after.held.in_set e)
