-- ===== src/Worker/Main/Drained.antt =====
-- FR-7.1: what the lanes of packages/worker/src/index.js still do once the worker is draining.
use distributed_job_queue.Base.{
  ℕ, ◌+◌, ◌≤◌, ◌≡◌, ◌≢◌, refl, sym, ◌∙◌, ap, Bool, true, false, none, some, List, arith, ◌==◌,
  if◌then◌else◌, Bool-cases, inl, inr, ==_iff,
}
use distributed_job_queue.Store.View.{set_at}
use distributed_job_queue.Worker.Main.{
  Lane, claiming, sleeping, busy, finished, registering, Worker, loop_head, signal, claim_answers,
  claim_fails, wakes, job_settles, poll, Step, registers, cannot_register, answers, fails,
  sleeps_enough, settles, is_signalled, polls, lanes_settle, deregisters, cannot_deregister, exits,
  Reach, here, next,
}

-- How many steps a lane of a draining worker has left, at most.
abbrev pub steps_left : Lane → ℕ
steps_left claiming = 2
steps_left sleeping = 1
steps_left (busy id) = 1
steps_left finished = 0

steps_left-le : (x : Lane) → steps_left x ≤ 2
steps_left-le claiming = omega arith
steps_left-le sleeping = omega arith
steps_left-le (busy id) = omega arith
steps_left-le finished = omega arith

abbrev pub claims_left : Lane → ℕ
claims_left claiming = 1
claims_left _ = 0

abbrev pub one_if : Bool → ℕ
one_if b = if b then 1 else 0

-- A lane that moves pays for it.
spend :
    (left : Lane → ℕ) (n i j : ℕ) (lanes : ℕ → Lane) (x y : Lane)
    → lanes j ≡ x
    → n + left y ≤ left x
    → (if j == i then n else 0) + left (set_at j y lanes i) ≤ left (lanes i)
spend left n i j lanes x y e pays = elim (Bool-cases (j == i)) [
  | inl same ↦
      let at : j ≡ i = (==_iff j i).0 same in
      let here : left (lanes i) ≡ left x = ap left (ap lanes (sym at) ∙ e) in
      ground (arith, same, at, here, pays)
  | inr other ↦ ground (arith, other)
]

-- What steps of a lane, and claims among them, have cost.
record IsSpent (i : ℕ) (s t : Worker) (steps taken : ℕ) : Type 0 where
  drains : t.draining ≡ true
  started : t.life ≢ registering
  spent : steps + steps_left (t.lanes i) ≤ steps_left (s.lanes i)
  claimed : taken + claims_left (t.lanes i) ≤ claims_left (s.lanes i)

loop_head-draining : (b : Bool) → b ≡ true → loop_head b ≡ finished
loop_head-draining true d = refl
loop_head-draining false d = cc

module _ (i : ℕ) where
  -- A lane moves on a draining worker.
  lane_moves :
      (s : Worker) (ids : List ℕ) (j n : ℕ) (x y : Lane)
      → s.draining ≡ true
      → s.life ≢ registering
      → s.lanes j ≡ x
      → 1 + steps_left y ≤ steps_left x
      → n + claims_left y ≤ claims_left x
      → IsSpent i s
          (record s { in_flight = ids; lanes = set_at j y s.lanes })
          (one_if (j == i))
          (if j == i then n else 0)
  lane_moves s ids j n x y d m e p q = record {
    drains = d;
    started = m;
    spent = spend steps_left 1 i j s.lanes x y e p;
    claimed = spend claims_left n i j s.lanes x y e q;
  }

  no_claim :
      (s t : Worker) (steps j : ℕ)
      → IsSpent i s t steps (if j == i then 0 else 0)
      → IsSpent i s t steps 0
  no_claim s t steps j o = record {
    drains = o.drains;
    started = o.started;
    spent = o.spent;
    claimed = ground (arith, o.claimed);
  }

  -- To the head of the loop, which ends it.
  head_ends :
      (s : Worker) (ids : List ℕ) (j : ℕ) (x : Lane)
      → s.draining ≡ true
      → s.life ≢ registering
      → s.lanes j ≡ x
      → 1 ≤ steps_left x
      → IsSpent i s
          (record s { in_flight = ids; lanes = set_at j (loop_head s.draining) s.lanes })
          (one_if (j == i))
          0
  head_ends s ids j x d m e p =
      let stops = loop_head-draining s.draining d in
      no_claim s _ (one_if (j == i)) j (
        lane_moves s ids j 0 x (loop_head s.draining) d m e (omega (arith, p, ap steps_left stops))
          (omega (arith, ap claims_left stops)))

  -- Nothing happens to a lane.
  unmoved :
      (s t : Worker)
      → t.draining ≡ true
      → t.life ≢ registering
      → t.lanes i ≡ s.lanes i
      → IsSpent i s t 0 0
  unmoved s t d m e = record {
    drains = d;
    started = m;
    spent = omega (arith, ap steps_left e);
    claimed = omega (arith, ap claims_left e);
  }

module _ {concurrency grace_period_ms : ℕ} (i : ℕ) where
  -- The steps of a lane, and its claims of a job.
  abbrev pub lane_step : {s t : Worker} → Step concurrency grace_period_ms s t → ℕ
  lane_step (answers j claimed u e) = one_if (j == i)
  lane_step (fails j u e) = one_if (j == i)
  lane_step (sleeps_enough j u e) = one_if (j == i)
  lane_step (settles j id u e) = one_if (j == i)
  lane_step _ = 0

  abbrev pub claim_step : {s t : Worker} → Step concurrency grace_period_ms s t → ℕ
  claim_step (answers j (some id) u e) = one_if (j == i)
  claim_step _ = 0

  pub lane_steps : {s t : Worker} → Reach concurrency grace_period_ms s t → ℕ
  lane_steps here = 0
  lane_steps (next r step) = lane_steps r + lane_step step

  pub claims : {s t : Worker} → Reach concurrency grace_period_ms s t → ℕ
  claims here = 0
  claims (next r step) = claims r + claim_step step

  Step-IsSpent :
      {s t : Worker} (step : Step concurrency grace_period_ms s t)
      → s.draining ≡ true
      → s.life ≢ registering
      → IsSpent i s t (lane_step step) (claim_step step)
  unfolding claim_answers claim_fails wakes job_settles signal poll
  Step-IsSpent {s} (registers l) d n = absurd (n l)
  Step-IsSpent {s} (cannot_register r l) d n = absurd (n l)
  Step-IsSpent {s} (answers j none u e) d n =
      head_ends i s s.in_flight j claiming d n e (omega arith)
  Step-IsSpent {s} (answers j (some id) u e) d n =
      lane_moves i s _ j 1 claiming (busy id) d n e (omega arith) (omega arith)
  Step-IsSpent {s} (fails j u e) d n =
      no_claim i s _ (one_if (j == i)) j
        (lane_moves i s s.in_flight j 0 claiming sleeping d n e (omega arith) (omega arith))
  Step-IsSpent {s} (sleeps_enough j u e) d n =
      head_ends i s s.in_flight j sleeping d n e (omega arith)
  Step-IsSpent {s} (settles j id u e) d n = head_ends i s _ j (busy id) d n e (omega arith)
  Step-IsSpent {s} (is_signalled j now u e) d n = unmoved i s _ refl n refl
  Step-IsSpent {s} (polls j deadline now u e) d n = unmoved i s _ d n refl
  Step-IsSpent {s} (lanes_settle j u e all) d n = unmoved i s _ d n refl
  Step-IsSpent {s} (deregisters j u e) d n = unmoved i s _ d n refl
  Step-IsSpent {s} (cannot_deregister j r u e) d n = unmoved i s _ d (λ l. cc) refl
  Step-IsSpent {s} (exits j code u e) d n = unmoved i s _ d (λ l. cc) refl

  Reach-IsSpent :
      {s t : Worker} (r : Reach concurrency grace_period_ms s t)
      → s.draining ≡ true
      → s.life ≢ registering
      → IsSpent i s t (lane_steps r) (claims r)
  unfolding lane_steps claims
  Reach-IsSpent here d n = record {
    drains = d;
    started = n;
    spent = omega arith;
    claimed = omega arith;
  }
  Reach-IsSpent (next r step) d n =
      let before = Reach-IsSpent r d n in
      let last = Step-IsSpent step before.drains before.started in
      record {
        drains = last.drains;
        started = last.started;
        spent = omega (arith, before.spent, last.spent);
        claimed = omega (arith, before.claimed, last.claimed);
      }

  -- Once a worker that has started its lanes is draining, and whatever happens then, it stays so,
  -- each of its lanes makes at most two more steps, and a lane takes at most one more job, which it
  -- does only if it was waiting for a claim when the draining began.
  pub drained_bounded :
      {s t : Worker} (r : Reach concurrency grace_period_ms s t)
      → s.draining ≡ true
      → s.life ≢ registering
      → (t.draining ≡ true)
        × (lane_steps r + steps_left (t.lanes i) ≤ 2)
        × (claims r ≤ claims_left (s.lanes i))
  drained_bounded {s} r d n =
      let o = Reach-IsSpent r d n in
      (o.drains, omega (arith, o.spent, steps_left-le (s.lanes i)), omega (arith, o.claimed))
