-- ===== src/Gateway/Fanout.antt =====
-- Who gets what packages/server/src/ws/gateway.js sends.
use distributed_job_queue.Base.{
  ℕ, ◌≤◌, ◌≡◌, refl, ap, ◌∙◌, Bool, ◌&&◌, none, some, List, [], ◌∷◌, ◌++◌, map, keep, count,
  count-append, ==_iff, ◌==◌, String, if◌then◌else◌, arith,
}
use distributed_job_queue.Queue.Stats.{Stats}
use distributed_job_queue.Store.View.{without}
use distributed_job_queue.RedisKeys.{events_channel, key_name}
use distributed_job_queue.Gateway.{
  Frame, forwarded, broadcast_stats, Gateway, started, Signal, connects, closes, errs,
  ready_changes, redis_message, stats_arrive, fan_out, add_client, receive, receive_all,
}

-- What a socket has been sent, the oldest first.
abbrev pub sent_to : ℕ → List (ℕ × Frame) → List Frame
sent_to s [] = []
sent_to s ((t, frame) ∷ sent) = let rest = sent_to s sent in if t == s then frame ∷ rest else rest

sent_to-append :
    (s : ℕ) (xs ys : List (ℕ × Frame)) → sent_to s (xs ++ ys) ≡ sent_to s xs ++ sent_to s ys
sent_to-append s [] ys = refl
sent_to-append s ((t, frame) ∷ xs) ys = ground (arith, sent_to-append s xs ys)

abbrev copies : Frame → (ℕ → Bool) → List ℕ → List (ℕ × Frame)
copies frame ready clients = map (λ s. (s, frame)) (keep ready clients)

no_copy :
    (s : ℕ) (frame : Frame) (ready : ℕ → Bool) (clients : List ℕ)
    → count s clients ≡ 0
    → sent_to s (copies frame ready clients) ≡ []
no_copy s frame ready [] h = refl
no_copy s frame ready (c ∷ cs) h = ground (arith, h, no_copy s frame ready cs)

one_copy :
    (s : ℕ) (frame : Frame) (ready : ℕ → Bool) (clients : List ℕ)
    → count s clients ≤ 1
    → sent_to s (copies frame ready clients)
      ≡ (if count s clients == 1 && ready s then frame ∷ [] else [])
one_copy s frame ready [] h = refl
one_copy s frame ready (c ∷ cs) h =
    ground (arith, h, ==_iff c s, one_copy s frame ready cs, no_copy s frame ready cs)

count-without : (s t : ℕ) (clients : List ℕ) → count s (without t clients) ≤ count s clients
count-without s t [] = omega arith
count-without s t (c ∷ cs) = ground (arith, count-without s t cs)

-- No socket is in the set twice.
abbrev pub IsSetOf : List ℕ → Type 0
IsSetOf clients = (s : ℕ) → count s clients ≤ 1

add_client-IsSetOf : (t : ℕ) (clients : List ℕ) → IsSetOf clients → IsSetOf (add_client t clients)
add_client-IsSetOf t clients h s = ground (arith, h s, count-append s clients (t ∷ []))

receive-IsSetOf : (g : Gateway) (x : Signal) → IsSetOf g.clients → IsSetOf (receive g x).clients
unfolding receive
receive-IsSetOf g (connects t) h s = add_client-IsSetOf t g.clients h s
receive-IsSetOf g (closes t) h s = omega (arith, h s, count-without s t g.clients)
receive-IsSetOf g (errs t) h s = omega (arith, h s, count-without s t g.clients)
receive-IsSetOf g (ready_changes t b) h s = h s
receive-IsSetOf g (redis_message channel message) h s = ground (arith, h s)
receive-IsSetOf g (stats_arrive none) h s = h s
receive-IsSetOf g (stats_arrive (some stats)) h s = h s

receive_all-IsSetOf :
    (g : Gateway) (xs : List Signal) → IsSetOf g.clients → IsSetOf (receive_all g xs).clients
unfolding receive_all
receive_all-IsSetOf g [] h = h
receive_all-IsSetOf g (x ∷ xs) h = receive_all-IsSetOf (receive g x) xs (receive-IsSetOf g x h)

fan_out-once :
    (s : ℕ) (frame : Frame) (g : Gateway)
    → IsSetOf g.clients
    → sent_to s (fan_out frame g).sent
      ≡ sent_to s g.sent ++ (if count s g.clients == 1 && g.ready s then frame ∷ [] else [])
fan_out-once s frame g h =
    sent_to-append s g.sent (copies frame g.ready g.clients)
    ∙ ap (λ frames. sent_to s g.sent ++ frames) (one_copy s frame g.ready g.clients (h s))

-- Whatever sockets have connected, closed and failed, in whatever order, a message on the channel of job
-- events, and every broadcast of the statistics, is sent exactly once to each socket that is in the set
-- of clients and open, and not at all to any other.
pub receive_all-once :
    (signals : List Signal) (socket : ℕ) (message : String) (stats : Stats)
    → let g = receive_all started signals in
      let reached = count socket g.clients == 1 && g.ready socket in
      (sent_to socket (receive g (redis_message (key_name events_channel) message)).sent
        ≡ sent_to socket g.sent ++ (if reached then forwarded message ∷ [] else []))
      × (sent_to socket (receive g (stats_arrive (some stats))).sent
          ≡ sent_to socket g.sent ++ (if reached then broadcast_stats stats ∷ [] else []))
unfolding receive started
receive_all-once signals socket message stats =
    let g = receive_all started signals in
    let set : IsSetOf g.clients = receive_all-IsSetOf started signals (λ s. omega arith) in
    (
      fan_out-once socket (forwarded message) g set,
      fan_out-once socket (broadcast_stats stats) g set,
    )
