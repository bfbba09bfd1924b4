-- ===== src/Dashboard/Feed/Bounds.antt =====
-- What useJobEvents of packages/dashboard/src/ws.js keeps within bounds.
use distributed_job_queue.Base.{
  ℕ, zero, suc, ◌*◌, ◌^◌, ◌≤◌, ◌≡◌, refl, ap, min, true, false, none, some, List, [], ◌∷◌, arith,
  length, length-take, if◌then◌else◌, Bool, Bool-cases, inl, inr, leb, ◌∙◌,
}
use native.Mathlib.Nat.{two-pow-succ, one-le-pow, mul-le-mul_left}
use distributed_job_queue.Dashboard.Feed.{
  Feed, Frame, stats_frame, event_frame, greeting, malformed, Signal, opened, message, closed,
  errored, timer_fired, cleaned_up, initial, classify, receive, step, run_signals,
}

pub record IsBounded (max_events : ℕ) (f : Feed) : Type 0 where
  pub few_events : length f.events ≤ max_events
  pub at_least : 1000 ≤ f.retry_delay
  pub at_most : f.retry_delay ≤ 15000
  pub no_timer : f.closed_by_cleanup ≡ true → f.retry_timer ≡ none

initial-IsBounded : (m : ℕ) → IsBounded m initial
unfolding initial
initial-IsBounded m = ground arith

receive-IsBounded : (m : ℕ) (f : Feed) (x : Frame) → IsBounded m f → IsBounded m (receive m f x)
receive-IsBounded m f (event_frame j) h = record {
  few_events = omega (arith, length-take {0} m (j ∷ f.events));
  at_least = h.at_least;
  at_most = h.at_most;
  no_timer = h.no_timer;
}
receive-IsBounded m f (stats_frame j) h = record {
  few_events = h.few_events;
  at_least = h.at_least;
  at_most = h.at_most;
  no_timer = h.no_timer;
}
receive-IsBounded m f greeting h = h
receive-IsBounded m f malformed h = h

step-IsBounded : (m : ℕ) (f : Feed) (s : Signal) → IsBounded m f → IsBounded m (step m f s)
unfolding step
step-IsBounded m f (message d) h = receive-IsBounded m f (classify d) h
step-IsBounded m f opened h = ground arith
step-IsBounded m f closed h = ground arith
step-IsBounded m f errored h = h
step-IsBounded m f timer_fired h = ground arith
step-IsBounded m f cleaned_up h = ground arith

run_signals_from :
    (m : ℕ) (f : Feed) (ss : List Signal) → IsBounded m f → IsBounded m (run_signals m f ss)
unfolding run_signals
run_signals_from m f [] h = h
run_signals_from m f (s ∷ ss) h = run_signals_from m (step m f s) ss (step-IsBounded m f s h)

-- After any signals whatever, the feed holds no more events than its limit, the next reconnection is
-- due in between one and fifteen seconds, and once the page has gone no reconnection is pending.
pub run_signals-IsBounded :
    (max_events : ℕ) (signals : List Signal)
    → IsBounded max_events (run_signals max_events initial signals)
run_signals-IsBounded m ss = run_signals_from m initial ss (initial-IsBounded m)

-- `n` failures of the connection in a row, each after the timer of the one before.
abbrev pub failures : ℕ → List Signal
failures zero = []
failures (suc n) = closed ∷ timer_fired ∷ failures n

doubled : (d n : ℕ) → d * 2 ^ suc n ≡ d * 2 * 2 ^ n
doubled d n = grind (arith, two-pow-succ n)

le-doubled : (d n : ℕ) → d ≤ d * 2 ^ n
le-doubled d n =
    let power : 1 ≤ 2 ^ n = one-le-pow n 2 (omega arith) in
    let product : d * 1 ≤ d * 2 ^ n = mul-le-mul_left d power in omega arith

capped_first : (d n : ℕ) → min (min (d * 2) 15000 * 2 ^ n) 15000 ≡ min (d * 2 ^ suc n) 15000
capped_first d n = rw (doubled d n) (elim (Bool-cases (leb (d * 2) 15000)) [
  | inl small ↦ let kept : min (d * 2) 15000 ≡ d * 2 = ground (arith, small) in rw kept refl
  | inr big ↦
      let kept : min (d * 2) 15000 ≡ 15000 = ground (arith, big) in
      rw kept (ground (arith, big, le-doubled 15000 n, le-doubled (d * 2) n))
])

failures_from :
    (m n : ℕ) (f : Feed)
    → f.closed_by_cleanup ≡ false
    → f.retry_delay ≤ 15000
    → (run_signals m f (failures n)).retry_delay ≡ min (f.retry_delay * 2 ^ n) 15000
unfolding run_signals step
failures_from m zero f is_open h = omega arith
failures_from m (suc n) f is_open h =
    ap (λ b. (run_signals m (step m (failed b) timer_fired) (failures n)).retry_delay) is_open
    ∙ failures_from m n (step m (failed false) timer_fired) is_open (omega arith)
    ∙ capped_first f.retry_delay n
  where
    failed : Bool → Feed
    failed b = if b then record f { connected = false } else record f {
      connected = false;
      retry_timer = some f.retry_delay;
      retry_delay = min (f.retry_delay * 2) 15000;
    }

-- While the server cannot be reached the delay doubles with every attempt, from one second, and stays
-- at fifteen.
pub failures-retry_delay :
    (max_events n : ℕ)
    → (run_signals max_events initial (failures n)).retry_delay ≡ min (1000 * 2 ^ n) 15000
unfolding initial
failures-retry_delay m n = failures_from m n initial refl (omega arith)
