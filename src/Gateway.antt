-- ===== src/Gateway.antt =====
-- packages/server/src/ws/gateway.js: the set of clients and what is sent to them. Sockets are numbered;
-- `none` is a call of getQueueStats that has failed.
mod Tests
pub mod Fanout
use distributed_job_queue.Base.{
  ℕ, ◌+◌, Bool, true, false, ◌&&◌, Option, none, some, List, [], ◌∷◌, ◌++◌, map, keep, count, ◌==◌,
  String, if◌then◌else◌,
}
use text.Mathlib.Text.{◌==◌ as str_eq}
use distributed_job_queue.Queue.Stats.{Stats}
use distributed_job_queue.RedisKeys.{events_channel, key_name}
use distributed_job_queue.Store.View.{without, set_at}

pub data Frame : Type 0 where
  greeting : Frame
  forwarded : (message : String) → Frame
  broadcast_stats : Stats → Frame

-- `ready` is `socket.readyState === socket.OPEN`.
pub record Gateway : Type 0 where
  pub clients : List ℕ
  pub ready : ℕ → Bool
  pub sent : List (ℕ × Frame)

unfoldable pub started : Gateway
started = record { clients = []; ready = λ s. false; sent = [] }

-- `ready_changes` is the socket's own doing.
pub data Signal : Type 0 where
  connects closes errs : (socket : ℕ) → Signal
  ready_changes : (socket : ℕ) → Bool → Signal
  redis_message : (channel message : String) → Signal
  stats_arrive : Option Stats → Signal

-- `for (const socket of clients) if (socket.readyState === socket.OPEN) socket.send(frame)`.
abbrev pub fan_out : Frame → Gateway → Gateway
fan_out frame g = record g { sent = g.sent ++ map (λ s. (s, frame)) (keep g.ready g.clients) }

-- `clients.add(socket)`, of a Set.
abbrev pub add_client : ℕ → List ℕ → List ℕ
add_client s clients = if count s clients == 0 then clients ++ s ∷ [] else clients

unfoldable pub receive : Gateway → Signal → Gateway
receive g (connects s) = record g {
  clients = add_client s g.clients;
  sent = g.sent ++ (s, greeting) ∷ [];
}
receive g (closes s) = record g { clients = without s g.clients }
receive g (errs s) = record g { clients = without s g.clients }
receive g (ready_changes s b) = record g { ready = set_at s b g.ready }
receive g (redis_message channel message) =
    if str_eq channel (key_name events_channel) then fan_out (forwarded message) g else g
receive g (stats_arrive none) = g
receive g (stats_arrive (some stats)) = fan_out (broadcast_stats stats) g

unfoldable pub receive_all : Gateway → List Signal → Gateway
unfolding receive
receive_all g [] = g
receive_all g (x ∷ xs) = receive_all (receive g x) xs
