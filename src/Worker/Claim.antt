-- ===== src/Worker/Claim.antt =====
-- packages/worker/src/claim.js. `now` is the reading of the clock.
mod Tests
pub mod Order
use distributed_job_queue.Base.{ℕ, Bool, Option, none, some, List, [], ◌∷◌, if◌then◌else◌}
use distributed_job_queue.Job.{Priority, high, normal, low, Envelope, priority_eq}
use distributed_job_queue.Store.Command.{
  queue, processing, job_data, heartbeats, hset, hget, hdel, lmove, blmove, lrem,
}
use distributed_job_queue.Store.Program.{Program, ret, await, ◌>>=◌, ◌>>◌}

-- `PRIORITIES` of packages/shared/src/redisKeys.js.
abbrev pub priorities : List Priority
priorities = high ∷ normal ∷ low ∷ []

-- An envelope of `none` is the object `{ id }`, used where `jobs:data` has no entry.
pub record Claimed : Type 0 where
  pub id : ℕ
  pub priority : Priority
  pub envelope : Option Envelope

-- `priority === PRIORITIES[PRIORITIES.length - 1]`.
abbrev pub is_last : Priority → Bool
is_last p = priority_eq p low

-- Only the last list blocks.
unfoldable pub move_job : (worker seconds : ℕ) → Priority → Program (Option ℕ)
move_job worker seconds p =
    if is_last p
    then await (blmove (queue p) (processing worker) seconds)
    else await (lmove (queue p) (processing worker))

unfoldable pub start_claim : (now : ℕ) → Priority → ℕ → Program (Option Claimed)
start_claim now p id = do
  await (hset heartbeats id now)
  raw ← await (hget job_data id)
  ret (some (record { id = id; priority = p; envelope = raw }))

-- The loop of claimNextJob.
unfoldable pub claim_from : (worker now seconds : ℕ) → List Priority → Program (Option Claimed)
unfolding move_job start_claim
claim_from worker now seconds [] = ret none
claim_from worker now seconds (p ∷ ps) =
    let next = claim_from worker now seconds ps in
    move_job worker seconds p >>= λ id. elim id [ none ↦ next | some i ↦ start_claim now p i ]

unfoldable pub claim_next_job : (worker now seconds : ℕ) → Program (Option Claimed)
unfolding claim_from
claim_next_job worker now seconds = claim_from worker now seconds priorities

unfoldable pub release_job : (worker id : ℕ) → Program Unit
release_job worker id = await (lrem (processing worker) id) >> await (hdel heartbeats id)

unfoldable pub heartbeat : (id now : ℕ) → Program Unit
heartbeat id now = await (hset heartbeats id now)
