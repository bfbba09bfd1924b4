-- ===== src/Dashboard/Feed/Latest.antt =====
-- The events that useJobEvents of packages/dashboard/src/ws.js shows.
use distributed_job_queue.Base.{
  ℕ, zero, suc, ◌≤◌, ◌≡◌, refl, sym, ◌∙◌, ap, List, [], ◌∷◌, ◌++◌, take, arith,
}
use mathlib.Core.List.{append_assoc, append-nil}
use distributed_job_queue.Payload.{Json}
use distributed_job_queue.Dashboard.Feed.{
  Feed, Frame, stats_frame, event_frame, greeting, malformed, Signal, opened, message, closed,
  errored, timer_fired, cleaned_up, initial, classify, receive, step, run_signals,
}

abbrev events_of : Frame → List Json
events_of (event_frame j) = j ∷ []
events_of _ = []

abbrev carried : Signal → List Json
carried (message d) = events_of (classify d)
carried _ = []

-- The job events among the signals, the newest first.
abbrev pub newest_first : List Signal → List Json
newest_first [] = []
newest_first (s ∷ ss) = newest_first ss ++ carried s

take-nil : (m : ℕ) → take {A = Json} m [] ≡ []
take-nil zero = refl
take-nil (suc m) = refl

take-append-take :
    (m n : ℕ) (xs ys : List Json) → m ≤ n → take m (xs ++ take n ys) ≡ take m (xs ++ ys)
take-append-take zero n xs ys h = refl
take-append-take (suc m) n (x ∷ xs) ys h =
    ap (λ zs. x ∷ zs) (take-append-take m n xs ys (omega arith))
take-append-take (suc m) zero [] ys h = absurd (omega arith)
take-append-take (suc m) (suc n) [] [] h = refl
take-append-take (suc m) (suc n) [] (y ∷ ys) h =
    ap (λ zs. y ∷ zs) (take-append-take m n [] ys (omega arith))

receive-events :
    (m : ℕ) (f : Feed) (x : Frame) (base : List Json)
    → f.events ≡ take m base
    → (receive m f x).events ≡ take m (events_of x ++ base)
receive-events m f (event_frame j) base e =
    ap (λ es. take m (j ∷ es)) e ∙ take-append-take m m (j ∷ []) base (omega arith)
receive-events m f (stats_frame j) base e = e
receive-events m f greeting base e = e
receive-events m f malformed base e = e

step-events :
    (m : ℕ) (f : Feed) (s : Signal) (base : List Json)
    → f.events ≡ take m base
    → (step m f s).events ≡ take m (carried s ++ base)
unfolding step
step-events m f (message d) base e = receive-events m f (classify d) base e
step-events m f opened base e = e
step-events m f closed base e = ground (arith, e)
step-events m f errored base e = e
step-events m f timer_fired base e = e
step-events m f cleaned_up base e = e

run-events :
    (m : ℕ) (f : Feed) (ss : List Signal) (base : List Json)
    → f.events ≡ take m base
    → (run_signals m f ss).events ≡ take m (newest_first ss ++ base)
unfolding run_signals
run-events m f [] base e = e
run-events m f (s ∷ ss) base e =
    run-events m (step m f s) ss (carried s ++ base) (step-events m f s base e)
    ∙ ap (take m) (sym (append_assoc (newest_first ss) (carried s) base))

-- After any signals the feed shows exactly the last `max_events` of all the job events received, the
-- newest first: no status broadcast, greeting or malformed frame is among them, and none is lost.
pub run_signals-latest :
    (max_events : ℕ) (signals : List Signal)
    → (run_signals max_events initial signals).events ≡ take max_events (newest_first signals)
unfolding initial
run_signals-latest m ss =
    run-events m initial ss [] (sym (take-nil m)) ∙ ap (take m) (append-nil (newest_first ss))
