-- ===== src/Worker/Shutdown/Deadline.antt =====
-- The grace period of packages/worker/src/shutdown.js.
use distributed_job_queue.Base.{
  ℕ, ◌+◌, ◌*◌, ◌≤◌, ◌<◌, ◌≡◌, ◌⊎◌, refl, true, false, ◌||◌, List, [], ◌∷◌, arith, leb, ◌==◌, ==_iff,
  inl, inr, length, Bool-cases,
}
use distributed_job_queue.Worker.Shutdown.{Poll, ended, await_idle, drain}

-- The first poll is not before `t`, and each comes at least 200 ms after the one before.
abbrev pub IsPaced : ℕ → List Poll → Type 0
IsPaced t [] = Unit {0}
IsPaced t (p ∷ ps) = (t ≤ p.now) × IsPaced (p.now + 200) ps

-- The first poll that reads no job in flight or a clock at the deadline.
pub data EndsAt (deadline : ℕ) : List Poll → Poll → Type 0 where
  here :
      {p : Poll} {ps : List Poll}
      → (p.in_flight ≡ 0) ⊎ (deadline ≤ p.now)
      → EndsAt deadline (p ∷ ps) p
  later :
      {p q : Poll} {ps : List Poll}
      → 1 ≤ p.in_flight
      → p.now < deadline
      → EndsAt deadline ps q
      → EndsAt deadline (p ∷ ps) q

idle_or_late :
    (p : Poll) (deadline : ℕ)
    → (p.in_flight == 0 || leb deadline p.now) ≡ true
    → (p.in_flight ≡ 0) ⊎ (deadline ≤ p.now)
idle_or_late p deadline e = elim (Bool-cases (p.in_flight == 0)) [
  | inl idle ↦ inl ((==_iff p.in_flight 0).0 idle)
  | inr busy ↦ inr (ground (arith, e, busy))
]

await_idle-EndsAt :
    (deadline t : ℕ) (polls : List Poll)
    → IsPaced t polls
    → 1 ≤ length polls
    → deadline + 200 ≤ t + 200 * length polls
    → (q : Poll) × EndsAt deadline polls q × (await_idle deadline polls ≡ ended q.in_flight)
unfolding await_idle
await_idle-EndsAt deadline t [] paced some_poll enough = absurd (omega arith)
await_idle-EndsAt deadline t (p ∷ []) paced some_poll enough =
    (p, here (inr (omega (arith, paced.0))), ground (arith, paced.0))
await_idle-EndsAt deadline t (p ∷ q ∷ ps) paced some_poll enough =
    elim (Bool-cases (p.in_flight == 0 || leb deadline p.now)) [
      | inl e ↦ (p, here (idle_or_late p deadline e), rw e refl)
      | inr e ↦
          let (r, stops, is_ended) =
            await_idle-EndsAt deadline (p.now + 200) (q ∷ ps) paced.1 (omega arith)
              (omega (arith, paced.0)) in
          (r, later (ground (arith, e)) (ground (arith, e)) stops, rw e is_ended)
    ]

-- When polls come at least 200 ms apart, the wait of a first drain has ended after one poll more than
-- the grace period has room for. It ends at the first poll at which no job is in flight or the grace
-- period is over, and not before: every poll before it has read a job in flight and a time within the
-- grace period. It says that all jobs are finished where none is left, and otherwise how many remain.
pub drain-ends :
    (grace_period_ms now : ℕ) (polls : List Poll)
    → IsPaced now polls
    → grace_period_ms + 200 ≤ 200 * length polls
    → (q : Poll) × EndsAt (now + grace_period_ms) polls q
      × (drain false grace_period_ms now polls ≡ (true, ended q.in_flight))
unfolding drain
drain-ends grace_period_ms now polls paced enough =
    let (q, stops, e) =
      await_idle-EndsAt (now + grace_period_ms) now polls paced (omega arith) (omega arith) in
    (q, stops, rw e refl)
