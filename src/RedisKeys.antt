-- ===== src/RedisKeys.antt =====
-- packages/shared/src/redisKeys.js: the names of the Redis keys. Ids and keys of callers are texts here.
mod Tests
pub mod Clashes
use distributed_job_queue.Base.{
  String, Bool, true, false, Option, none, some, List, [], ◌∷◌, if◌then◌else◌,
}
use distributed_job_queue.Job.{Priority, high, normal, low}

-- What the code may name in Redis.
pub data Key : Type 0 where
  queue_of : Priority → Key
  delayed_set heartbeats job_data events_channel scheduler_lock workers_set : Key
  processing_of idempotency_of reaper_lock_of throughput_of : String → Key

abbrev pub priority_name : Priority → String
priority_name high = "high"
priority_name normal = "normal"
priority_name low = "low"

-- `${prefix}${rest}`.
abbrev pub prefixed : String → String → String
prefixed String.[] rest = rest
prefixed (String.◌∷◌ c prefix) rest = String.◌∷◌ c (prefixed prefix rest)

-- The function or the constant that gives the name.
abbrev pub key_name : Key → String
key_name (queue_of p) = prefixed "queue:" (priority_name p)
key_name delayed_set = "queue:delayed"
key_name (processing_of worker) = prefixed "processing:" worker
key_name heartbeats = "jobs:heartbeats"
key_name job_data = "jobs:data"
key_name events_channel = "jobs:events"
key_name (idempotency_of key) = prefixed "idempotency:" key
key_name scheduler_lock = "lock:scheduler"
key_name (reaper_lock_of worker) = prefixed "lock:reaper:" worker
key_name workers_set = "workers:active"
key_name (throughput_of minute) = prefixed "metrics:throughput:" minute
