-- ===== src/Dashboard/Feed.antt =====
-- useJobEvents of packages/dashboard/src/ws.js, over one mount: the state, and what the handlers of the
-- socket, the timer and the cleanup make of it. A frame that is no JSON is `none`.
pub mod Bounds
pub mod Latest
use distributed_job_queue.Base.{
  ℕ, zero, suc, ◌*◌, min, Bool, true, false, Option, none, some, List, [], ◌∷◌, take, if◌then◌else◌,
}
use distributed_job_queue.Payload.{Json, null, member, is_text}

-- `retry_timer` is the delay of the timer that will connect again.
pub record Feed : Type 0 where
  pub events : List Json
  pub stats : Option Json
  pub connected : Bool
  pub retry_delay : ℕ
  pub closed_by_cleanup : Bool
  pub retry_timer : Option ℕ

unfoldable pub initial : Feed
initial = record {
  events = [];
  stats = none;
  connected = false;
  retry_delay = 1000;
  closed_by_cleanup = false;
  retry_timer = none;
}

pub data Frame : Type 0 where
  stats_frame event_frame : Json → Frame
  greeting malformed : Frame

-- `data.type`, which throws where the frame is null.
unfoldable pub classify : Option Json → Frame
classify none = malformed
classify (some null) = malformed
classify (some j) =
    if is_text "stats" (member "type" j)
    then stats_frame j
    else if is_text "connected" (member "type" j)
    then greeting
    else event_frame j

abbrev pub receive : (max_events : ℕ) → Feed → Frame → Feed
receive max_events f (stats_frame j) = record f { stats = some j }
receive max_events f (event_frame j) = record f { events = take max_events (j ∷ f.events) }
receive max_events f greeting = f
receive max_events f malformed = f

pub data Signal : Type 0 where
  opened : Signal
  message : Option Json → Signal
  closed errored : Signal
  timer_fired cleaned_up : Signal

-- An error closes the socket, which then gives `closed`; the timer opens a new socket.
unfoldable pub step : (max_events : ℕ) → Feed → Signal → Feed
unfolding classify
step max_events f opened = record f { connected = true; retry_delay = 1000 }
step max_events f (message data_text) = receive max_events f (classify data_text)
step max_events f closed =
    if f.closed_by_cleanup then record f { connected = false } else record f {
      connected = false;
      retry_timer = some f.retry_delay;
      retry_delay = min (f.retry_delay * 2) 15000;
    }
step max_events f errored = f
step max_events f timer_fired = record f { retry_timer = none }
step max_events f cleaned_up = record f { closed_by_cleanup = true; retry_timer = none }

unfoldable pub run_signals : (max_events : ℕ) → Feed → List Signal → Feed
unfolding step
run_signals max_events f [] = f
run_signals max_events f (s ∷ ss) = run_signals max_events (step max_events f s) ss
