-- ===== src/Worker/Main/Invariant.antt =====
-- NFR-3 and FR-7.1: the worker of packages/worker/src/index.js leaves only when no job of it runs.
use distributed_job_queue.Base.{
  ℕ, ◌≤◌, ◌≡◌, ◌≢◌, refl, sym, subst, ◌∙◌, Bool, true, false, Option, none, some, List, [], ◌∷◌,
  arith, ◌==◌, if◌then◌else◌, count, Bool-cases, ◌⊎◌, inl, inr, ==_refl, ==_iff,
}
use distributed_job_queue.Custody.Lists.{count-without}
use distributed_job_queue.Store.View.{set_at, without}
use distributed_job_queue.Worker.Main.{
  Lane, claiming, sleeping, busy, finished, Shutdown, in_drain, settling, deregistering, closing,
  registering, up, exited, Worker, add_id, loop_head, launched, start_lanes, claim_answers,
  claim_fails, wakes, job_settles, signal, poll, AllFinished, Step, registers, cannot_register,
  answers, fails, sleeps_enough, settles, is_signalled, polls, lanes_settle, deregisters,
  cannot_deregister, exits, Reach, here, next,
}

-- Past the wait for the lanes.
abbrev pub IsLeaving : Option Shutdown → Type 0
IsLeaving (some deregistering) = Unit
IsLeaving (some closing) = Unit
IsLeaving _ = ⊥

pub record IsOrderly (s : Worker) : Type 0 where
  pub leaving : (j : ℕ) → IsLeaving (s.shutdowns j) → AllFinished s
  pub ended : s.life ≢ up → AllFinished s
  pub unlisted : s.registered ≡ false → AllFinished s
  pub quiet : s.life ≡ registering → (j : ℕ) → s.shutdowns j ≡ none
  pub running : (id : ℕ) → 1 ≤ count id s.in_flight → (i : ℕ) × (s.lanes i ≡ busy id)

-- A lane that runs a job still does when another one moves.
busy-kept :
    (lanes : ℕ → Lane) (i j id : ℕ) (x y : Lane)
    → lanes i ≡ x
    → x ≢ busy id
    → lanes j ≡ busy id
    → set_at i y lanes j ≡ busy id
busy-kept lanes i j id x y e n b = elim (Bool-cases (j == i)) [
  | inl same ↦ let at : j ≡ i = (==_iff j i).0 same in absurd (n (sym e ∙ rw (← at) b))
  | inr other ↦ ground (arith, other, b)
]

module _ (s : Worker) (o : IsOrderly s) where
  -- A lane that has not finished moves.
  lane_moves :
      (i : ℕ) (x : Lane) (ids : List ℕ) (lanes : ℕ → Lane)
      → s.lanes i ≡ x
      → x ≢ finished
      → ((id : ℕ) → 1 ≤ count id ids → (j : ℕ) × (lanes j ≡ busy id))
      → IsOrderly (record s { in_flight = ids; lanes = lanes })
  lane_moves i x ids lanes e n runs = record {
    leaving = λ j l. absurd (n (sym e ∙ o.leaving j l i));
    ended = λ l. absurd (n (sym e ∙ o.ended l i));
    unlisted = λ l. absurd (n (sym e ∙ o.unlisted l i));
    quiet = o.quiet;
    running = runs;
  }

  -- So does one that runs no job, before and after.
  idle_moves :
      (i : ℕ) (x y : Lane)
      → s.lanes i ≡ x
      → x ≢ finished
      → ((id : ℕ) → x ≢ busy id)
      → IsOrderly (record s { lanes = set_at i y s.lanes })
  idle_moves i x y e n idle =
      lane_moves i x s.in_flight (set_at i y s.lanes) e n
        (λ id m. let (j, b) = o.running id m in (j, busy-kept s.lanes i j id x y e (idle id) b))

  -- A call of shutdown moves, and leaves only when the lanes have finished.
  shutdown_moves :
      (j : ℕ) (x : Option Shutdown) (draining : Bool)
      → s.life ≡ up
      → (IsLeaving x → AllFinished s)
      → IsOrderly (record s { draining = draining; shutdowns = set_at j x s.shutdowns })
  shutdown_moves j x draining alive leaves = record {
    leaving = λ k. by_call k (Bool-cases (k == j));
    ended = o.ended;
    unlisted = o.unlisted;
    quiet = λ l. absurd (cc (l, alive));
    running = o.running;
  }
    where
      by_call :
          (k : ℕ)
          → ((k == j) ≡ true) ⊎ ((k == j) ≡ false)
          → IsLeaving (set_at j x s.shutdowns k)
          → AllFinished s
      by_call k (inl e) = rw e leaves
      by_call k (inr e) = rw e (o.leaving k)

  -- The process ends, with whatever becomes of its entry.
  process_ends :
      (code : ℕ) (registered : Bool)
      → AllFinished s
      → IsOrderly (record s { life = exited code; registered = registered })
  process_ends code registered all = record {
    leaving = λ j l. all;
    ended = λ l. all;
    unlisted = λ l. all;
    quiet = λ l. cc;
    running = o.running;
  }

  added_runs :
      (i id : ℕ)
      → s.lanes i ≡ claiming
      → (a : ℕ) → 1 ≤ count a (add_id id s.in_flight)
      → (j : ℕ) × (set_at i (busy id) s.lanes j ≡ busy a)
  added_runs i id e a m = elim (Bool-cases (id == a)) [
    | inl same ↦ (i, ground (arith, same, ==_refl i))
    | inr other ↦
        let (j, b) = o.running a (ground (arith, other, m)) in
        (j, busy-kept s.lanes i j a claiming (busy id) e (λ p. cc) b)
  ]

  left_run :
      (i id : ℕ) (y : Lane)
      → s.lanes i ≡ busy id
      → (a : ℕ) → 1 ≤ count a (without id s.in_flight)
      → (j : ℕ) × (set_at i y s.lanes j ≡ busy a)
  left_run i id y e a m = elim (Bool-cases (id == a)) [
    | inl same ↦ absurd (ground (arith, same, m, count-without a id s.in_flight))
    | inr other ↦
        let (j, b) = o.running a (ground (arith, other, m, count-without a id s.in_flight)) in
        (j, busy-kept s.lanes i j a (busy id) y e (λ p. ground (arith, other, p)) b)
  ]

  starts : (concurrency : ℕ) → s.life ≡ registering → IsOrderly (start_lanes concurrency s)
  unfolding start_lanes
  starts concurrency l =
      let all : AllFinished s = o.ended (λ e. cc) in
      record {
        leaving = λ j q. absurd (subst IsLeaving (o.quiet l j) q);
        ended = λ n. absurd (n refl);
        unlisted = λ e. cc;
        quiet = λ e. cc;
        running = λ id m. let (i, b) = o.running id m in absurd (cc (b, all i));
      }

  -- The entry goes once a call of shutdown leaves.
  entry_goes :
      (j : ℕ)
      → s.life ≡ up
      → AllFinished s
      → IsOrderly (record s { registered = false; shutdowns = set_at j (some closing) s.shutdowns })
  entry_goes j u all =
      let o' = shutdown_moves j (some closing) s.draining u (λ l. all) in
      record {
        leaving = o'.leaving;
        ended = o.ended;
        unlisted = λ e. all;
        quiet = o'.quiet;
        running = o.running;
      }

-- The test of the loop of drain does not leave, nor does the way past it.
test_stays :
    (b : Bool) (deadline : ℕ) → IsLeaving (some (if b then settling else in_drain deadline)) → ⊥
test_stays true deadline l = l
test_stays false deadline l = l

signal_stays :
    (draining b : Bool) (deadline : ℕ)
    → IsLeaving (some (if draining then settling else if b then settling else in_drain deadline))
    → ⊥
signal_stays true b deadline l = l
signal_stays false b deadline l = test_stays b deadline l

no_ids : (ids : List ℕ) → ((id : ℕ) → 1 ≤ count id ids → ⊥) → ids ≡ []
no_ids [] none_in = refl
no_ids (x ∷ ids) none_in = absurd (none_in x (ground (arith, ==_refl x)))

module _ (concurrency grace_period_ms : ℕ) where
  Step-IsOrderly : {s t : Worker} → Step concurrency grace_period_ms s t → IsOrderly s → IsOrderly t
  unfolding claim_answers claim_fails wakes job_settles signal poll
  Step-IsOrderly {s} (registers l) o = starts s o concurrency l
  Step-IsOrderly {s} (cannot_register r l) o = process_ends s o 1 r (o.ended (λ e. cc))
  Step-IsOrderly {s} (answers i none u e) o =
      idle_moves s o i claiming (loop_head s.draining) e (λ p. cc) (λ id p. cc)
  Step-IsOrderly {s} (answers i (some id) u e) o =
      lane_moves s o i claiming _ _ e (λ p. cc) (added_runs s o i id e)
  Step-IsOrderly {s} (fails i u e) o = idle_moves s o i claiming sleeping e (λ p. cc) (λ id p. cc)
  Step-IsOrderly {s} (sleeps_enough i u e) o =
      idle_moves s o i sleeping (loop_head s.draining) e (λ p. cc) (λ id p. cc)
  Step-IsOrderly {s} (settles i id u e) o =
      lane_moves s o i (busy id) _ _ e (λ p. cc) (left_run s o i id (loop_head s.draining) e)
  Step-IsOrderly {s} (is_signalled j now u e) o =
      shutdown_moves s o j _ true u (λ l. absurd (signal_stays s.draining _ _ l))
  Step-IsOrderly {s} (polls j deadline now u e) o =
      shutdown_moves s o j _ s.draining u (λ l. absurd (test_stays _ deadline l))
  Step-IsOrderly {s} (lanes_settle j u e all) o =
      shutdown_moves s o j (some deregistering) s.draining u (λ l. all)
  Step-IsOrderly {s} (deregisters j u e) o = entry_goes s o j u (o.leaving j (rw e tt))
  Step-IsOrderly {s} (cannot_deregister j r u e) o = process_ends s o 1 r (o.leaving j (rw e tt))
  Step-IsOrderly {s} (exits j code u e) o =
      process_ends s o code s.registered (o.leaving j (rw e tt))

  launched-IsOrderly : IsOrderly launched
  unfolding launched
  launched-IsOrderly = record {
    leaving = λ j l i. refl;
    ended = λ l i. refl;
    unlisted = λ e i. refl;
    quiet = λ l j. refl;
    running = λ id m. absurd (omega (arith, m));
  }

  Reach-IsOrderly : {s : Worker} → Reach concurrency grace_period_ms launched s → IsOrderly s
  Reach-IsOrderly here = launched-IsOrderly
  Reach-IsOrderly (next r step) = Step-IsOrderly step (Reach-IsOrderly r)

  -- In every state that the worker's process can reach, with any number of lanes, any grace period
  -- and any signals, and however claims, jobs and commands end: when the process has exited, or its
  -- entry in `workers:active` is not there, no lane runs and no job is in flight; and a job counts as
  -- in flight only while some lane runs it.
  pub leaves_idle :
      {s : Worker}
      → Reach concurrency grace_period_ms launched s
      → (((s.life ≢ up) ⊎ (s.registered ≡ false)) → AllFinished s × (s.in_flight ≡ []))
        × ((id : ℕ) → 1 ≤ count id s.in_flight → (i : ℕ) × (s.lanes i ≡ busy id))
  leaves_idle {s} r =
      let o = Reach-IsOrderly r in
      let idle : AllFinished s → s.in_flight ≡ [] =
        λ all. no_ids s.in_flight (λ id m. let (i, b) = o.running id m in cc (b, all i)) in
      (
        elim [
          | inl gone ↦ (o.ended gone, idle (o.ended gone))
          | inr out ↦ (o.unlisted out, idle (o.unlisted out))
        ],
        o.running,
      )
