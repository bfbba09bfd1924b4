-- ===== src/Gateway/Tests.antt =====
-- Of two clients one is no longer open.
use distributed_job_queue.Base.{◌≡◌, true, false, List, [], ◌∷◌, ◌++◌, some}
use distributed_job_queue.Queue.Stats.{Stats}
use distributed_job_queue.RedisKeys.{events_channel, key_name}
use distributed_job_queue.Gateway.{
  Signal, connects, ready_changes, redis_message, stats_arrive, forwarded, broadcast_stats, started,
  receive, receive_all,
}
use distributed_job_queue.Gateway.Fanout.{sent_to, receive_all-once}

abbrev signals : List Signal
signals =
    connects 1
    ∷ ready_changes 1 true
    ∷ connects 2
    ∷ ready_changes 2 true
    ∷ connects 1
    ∷ ready_changes 2 false
    ∷ []

abbrev stats : Stats
stats = record {
  high = 1;
  normal = 0;
  low = 0;
  delayed = 0;
  by_status = [];
  throughput_per_min = 3;
  failure_rate_last_hour = 0;
  dlq_count = 0;
}

receive_all-once_example :
    let g = receive_all started signals in
    (sent_to 1 (receive g (redis_message (key_name events_channel) "{}")).sent
      ≡ sent_to 1 g.sent ++ forwarded "{}" ∷ [])
    × (sent_to 1 (receive g (stats_arrive (some stats))).sent
        ≡ sent_to 1 g.sent ++ broadcast_stats stats ∷ [])
unfolding started receive_all
receive_all-once_example = receive_all-once signals 1 "{}" stats
