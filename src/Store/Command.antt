-- ===== src/Store/Command.antt =====
-- The Redis commands and SQL statements of the code, each with the type of its answer.
use distributed_job_queue.Base.{ℕ, String, Option, List, Bool}
use distributed_job_queue.Job.{Priority, Status, Message, Row, Envelope, LogEntry, Definition}

-- The lists `queue:<priority>` and `processing:<worker>` of packages/shared/src/redisKeys.js.
pub data ListKey : Type 0 where
  queue : Priority → ListKey
  processing : (worker : ℕ) → ListKey

-- The hashes `jobs:data` and `jobs:heartbeats`.
pub data Hash : Type 0 where
  job_data heartbeats : Hash

abbrev pub Content : Hash → Type 0
Content job_data = Envelope
Content heartbeats = ℕ

-- The plain keys `idempotency:<key>`, `lock:scheduler` and `lock:reaper:<worker>`.
pub data StringKey : Type 0 where
  idempotency : (key : ℕ) → StringKey
  scheduler_lock : StringKey
  reaper_lock : (worker : ℕ) → StringKey

-- One assignment of an `UPDATE jobs SET …`. An attempt of `none` is NaN.
pub data Assign : Type 0 where
  set_status : Status → Assign
  set_attempt : Option ℕ → Assign
  set_error : Option Message → Assign
  set_worker : Option ℕ → Assign
  set_scheduled : Option ℕ → Assign
  set_completed : Option ℕ → Assign

-- A condition of `listJobs`, with its parameter.
pub data Condition : Type 0 where
  status_is : Status → Condition
  type_is : String → Condition

-- The one row of the count of failed jobs.
pub record Outcomes : Type 0 where
  pub failed : ℕ
  pub total : ℕ

-- `eval_bucket` is the script TOKEN_BUCKET_LUA on the key `ratelimit:<api key>`. The last three are
-- the aggregates of getQueueStats; `now` is Postgres's clock.
pub data Command : Type 0 where
  get : StringKey → Command
  set_ex : StringKey → (value seconds : ℕ) → Command
  set_nx_px : StringKey → (value ms : ℕ) → Command
  release_lock : StringKey → (owner : ℕ) → Command
  hset : (h : Hash) → ℕ → Content h → Command
  hget hdel : Hash → ℕ → Command
  zadd : (score id : ℕ) → Command
  zrem : (id : ℕ) → Command
  zrangebyscore : (now limit : ℕ) → Command
  zcard : Command
  lpush : ListKey → ℕ → Command
  lmove : (source target : ListKey) → Command
  blmove : (source target : ListKey) (seconds : ℕ) → Command
  lrem : ListKey → ℕ → Command
  lrange llen : ListKey → Command
  sadd srem : (worker : ℕ) → Command
  smembers : Command
  publish : LogEntry → Command
  insert_job : Row → Command
  insert_event : LogEntry → Command
  select_job : (id : ℕ) → Command
  select_events : (id : ℕ) → Command
  update_job : (id : ℕ) → List Assign → Command
  select_page : List Condition → (limit offset : ℕ) → Command
  count_jobs : List Condition → Command
  insert_definition : Definition → Command
  select_definitions select_enabled : Command
  set_enabled : Bool → (id : ℕ) → Command
  set_last_run : (id now : ℕ) → Command
  delete_definition : (id : ℕ) → Command
  eval_bucket : (api_key : String) (capacity now : ℕ) → Command
  ping select_one : Command
  count_by_status : Command
  count_completed_within count_failures_within : (now ms : ℕ) → Command

-- The answer to a command. `Option Row` is `rows[0]`, which may be undefined.
abbrev pub Reply : Command → Type 0
Reply (get k) = Option ℕ
Reply (set_ex k v s) = Unit
Reply (set_nx_px k v ms) = Bool
Reply (release_lock k o) = Bool
Reply (hset h f c) = Unit
Reply (hget h f) = Option (Content h)
Reply (hdel h f) = Unit
Reply (zadd s i) = Unit
Reply (zrem i) = Bool
Reply (zrangebyscore n l) = List ℕ
Reply zcard = ℕ
Reply (lpush k i) = ℕ
Reply (lmove s t) = Option ℕ
Reply (blmove s t n) = Option ℕ
Reply (lrem k i) = ℕ
Reply (lrange k) = List ℕ
Reply (llen k) = ℕ
Reply (sadd w) = Unit
Reply (srem w) = Unit
Reply smembers = List ℕ
Reply (publish e) = Unit
Reply (insert_job r) = Row
Reply (insert_event e) = Unit
Reply (select_job i) = Option Row
Reply (select_events i) = List LogEntry
Reply (update_job i as') = Option Row
Reply (select_page cs l o) = List Row
Reply (count_jobs cs) = ℕ
Reply (insert_definition d) = Definition
Reply select_definitions = List Definition
Reply select_enabled = List Definition
Reply (set_enabled b i) = Option Definition
Reply (set_last_run i n) = Unit
Reply (delete_definition i) = ℕ
Reply (eval_bucket k c n) = Bool
Reply ping = Unit
Reply select_one = Unit
Reply count_by_status = List (Status × ℕ)
Reply (count_completed_within n ms) = ℕ
Reply (count_failures_within n ms) = Outcomes
