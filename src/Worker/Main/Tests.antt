-- ===== src/Worker/Main/Tests.antt =====
-- A worker with one lane: a job, a signal while it runs, and the way out.
use distributed_job_queue.Base.{
  ◌≡◌, ◌≤◌, ◌≢◌, ◌⊎◌, ◌+◌, ℕ, refl, true, false, some, count, [], arith,
}
use distributed_job_queue.Store.View.{set_at}
use distributed_job_queue.Worker.Main.{
  Worker, Reach, here, next, registers, answers, is_signalled, settles, polls, lanes_settle,
  deregisters, launched, start_lanes, claim_answers, signal, job_settles, poll, AllFinished, up,
  busy, closing, deregistering,
}
use distributed_job_queue.Worker.Main.Invariant.{leaves_idle}
use distributed_job_queue.Worker.Main.Drained.{
  drained_bounded, lane_steps, claims, steps_left, claims_left,
}

-- Signalled while job 7 runs.
abbrev draining_7 : Worker
unfolding launched start_lanes claim_answers signal
draining_7 = signal 500 0 100 (claim_answers 0 (some 7) (start_lanes 1 launched))

busy_lane : draining_7.lanes 0 ≡ busy 7
unfolding draining_7
busy_lane = refl

reach_draining : Reach 1 500 launched draining_7
unfolding launched start_lanes claim_answers signal
reach_draining =
    next (next (next here (registers refl)) (answers 0 (some 7) refl refl))
      (is_signalled 0 100 refl refl)

abbrev idle_again : Worker
unfolding job_settles poll draining_7
idle_again = poll 0 600 300 (job_settles 0 7 draining_7)

abbrev deregistered : Worker
unfolding idle_again
deregistered = record idle_again {
  registered = false;
  shutdowns = set_at 0 (some closing) (set_at 0 (some deregistering) idle_again.shutdowns);
}

all_finished : AllFinished idle_again
unfolding idle_again draining_7 job_settles poll signal claim_answers start_lanes launched
all_finished i = ground arith

way_out : Reach 1 500 draining_7 deregistered
unfolding deregistered idle_again draining_7 job_settles poll signal claim_answers start_lanes
    launched
way_out =
    next
      (next (next (next here (settles 0 7 refl refl)) (polls 0 600 300 refl refl))
        (lanes_settle 0 refl refl all_finished))
      (deregisters 0 refl refl)

whole_way : Reach 1 500 launched deregistered
unfolding deregistered idle_again draining_7 job_settles poll signal claim_answers start_lanes
    launched
whole_way =
    next
      (next (next (next reach_draining (settles 0 7 refl refl)) (polls 0 600 300 refl refl))
        (lanes_settle 0 refl refl all_finished))
      (deregisters 0 refl refl)

drained_bounded_example :
    (deregistered.draining ≡ true)
    × (lane_steps 0 way_out + steps_left (deregistered.lanes 0) ≤ 2)
    × (claims 0 way_out ≤ claims_left (draining_7.lanes 0))
unfolding draining_7 signal claim_answers start_lanes
drained_bounded_example = drained_bounded 0 way_out refl (λ e. cc)

leaves_idle_example :
    (((deregistered.life ≢ up) ⊎ (deregistered.registered ≡ false))
      → AllFinished deregistered × (deregistered.in_flight ≡ []))
    × ((id : ℕ) → 1 ≤ count id deregistered.in_flight → (i : ℕ) × (deregistered.lanes i ≡ busy id))
leaves_idle_example = leaves_idle 1 500 whole_way
