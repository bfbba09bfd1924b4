-- ===== src/Store/View.antt =====
-- What Redis and Postgres hold, and what their documentation says that each command answers and
-- changes. Nothing here is code of the repository: packages/ only sends the commands, and these
-- functions are used through the hypothesis IsReliable of Store/Server.antt. The foreign key of job_events
-- is left out: IsReliable speaks of services in which each job of an entry has its row.
pub mod Rows
pub use Rows.*
use distributed_job_queue.Base.{
  ℕ, ◌+◌, String, Option, none, some, List, [], ◌∷◌, ◌++◌, map, Bool, true, false, not, ◌&&◌, ◌||◌,
  ltb, leb, ◌==◌, if◌then◌else◌, length, take, drop, keep, count,
}
use mathlib.Core.Option
use text.Mathlib.Text.{◌==◌ as str_eq}
use distributed_job_queue.Job.{
  unique_violation, invalid_number, Row, Envelope, LogEntry, Definition, status_eq, priority_eq,
  Status, queued, delayed, active, completed, failed, dead,
}
use distributed_job_queue.RateLimit.{Bucket, token_bucket}
use distributed_job_queue.Store.Command.{
  ListKey, queue, processing, Hash, job_data, heartbeats, Content, StringKey, idempotency,
  scheduler_lock, reaper_lock, Assign, set_status, set_attempt, set_error, set_worker,
  set_scheduled, set_completed, Condition, status_is, type_is, Command, Reply, get, set_ex,
  set_nx_px, release_lock, hset, hget, hdel, zadd, zrem, zrangebyscore, zcard, lpush, lmove, blmove,
  lrem, lrange, llen, sadd, srem, smembers, publish, insert_job, insert_event, select_job,
  select_events, update_job, select_page, count_jobs, insert_definition, select_definitions,
  select_enabled, set_enabled, set_last_run, delete_definition, eval_bucket, ping, select_one,
  count_by_status, count_completed_within, count_failures_within, Outcomes,
}
use distributed_job_queue.Store.Program.{Result, ok, err}

pub record View : Type 0 where
  pub lists : ListKey → List ℕ
  pub envelopes : ℕ → Option Envelope
  pub beats : ℕ → Option ℕ
  pub delayed_set : List (ℕ × ℕ)
  pub strings : StringKey → Option ℕ
  pub workers : List ℕ
  pub published : List LogEntry
  pub jobs : List Row
  pub events : List LogEntry
  pub definitions : List Definition
  pub buckets : String → Option Bucket

abbrev pub list_eq : ListKey → ListKey → Bool
list_eq (queue p) (queue q) = priority_eq p q
list_eq (processing v) (processing w) = v == w
list_eq _ _ = false

abbrev pub string_eq : StringKey → StringKey → Bool
string_eq (idempotency j) (idempotency k) = j == k
string_eq scheduler_lock scheduler_lock = true
string_eq (reaper_lock v) (reaper_lock w) = v == w
string_eq _ _ = false

abbrev pub set_list : ListKey → List ℕ → (ListKey → List ℕ) → ListKey → List ℕ
set_list k xs lists j = if list_eq j k then xs else lists j

abbrev pub set_string : StringKey → Option ℕ → (StringKey → Option ℕ) → StringKey → Option ℕ
set_string k v strings j = if string_eq j k then v else strings j

abbrev pub set_at : {A : Type 0} → ℕ → A → (ℕ → A) → ℕ → A
set_at i a f j = if j == i then a else f j

abbrev pub without : ℕ → List ℕ → List ℕ
without a = keep (λ x. not (x == a))

-- The right end of a list, and what stands before it.
abbrev pub pop_right : List ℕ → Option (List ℕ × ℕ)
pop_right [] = none
pop_right (x ∷ xs) = elim (pop_right xs) [
  | none ↦ some ([], x)
  | some (init, last) ↦ some (x ∷ init, last)
]

-- LMOVE source target RIGHT LEFT, from what stands at the right end of the source.
abbrev pub moved_by : ListKey → ListKey → View → Option (List ℕ × ℕ) → View
moved_by source target v none = v
moved_by source target v (some (init, last)) =
    let left = set_list source init v.lists in
    record v { lists = set_list target (last ∷ left target) left }

abbrev pub moved : ListKey → ListKey → View → View
moved source target v = moved_by source target v (pop_right (v.lists source))

abbrev pub unscheduled : ℕ → List (ℕ × ℕ) → List (ℕ × ℕ)
unscheduled id = keep (λ m. not (m.0 == id))

-- A sorted set in the order of its scores.
abbrev pub schedule : ℕ → ℕ → List (ℕ × ℕ) → List (ℕ × ℕ)
schedule score id [] = (id, score) ∷ []
schedule score id (m ∷ ms) =
    let later = m ∷ schedule score id ms in if ltb score m.1 then (id, score) ∷ m ∷ ms else later

abbrev pub lookup_hash : (h : Hash) → ℕ → View → Option (Content h)
lookup_hash job_data f v = v.envelopes f
lookup_hash heartbeats f v = v.beats f

abbrev pub write_hash : (h : Hash) → ℕ → Option (Content h) → View → View
write_hash job_data f c v = record v { envelopes = set_at f c v.envelopes }
write_hash heartbeats f c v = record v { beats = set_at f c v.beats }

abbrev pub has_member : ℕ → List (ℕ × ℕ) → Bool
has_member id [] = false
has_member id (m ∷ ms) = m.0 == id || has_member id ms

abbrev pub due_ids : ℕ → List (ℕ × ℕ) → List ℕ
due_ids now ms = map (λ m. m.0) (keep (λ m. leb m.1 now) ms)

abbrev pub is_free : Option ℕ → Bool
is_free none = true
is_free (some v) = false

abbrev pub popped : Option (List ℕ × ℕ) → Option ℕ
popped none = none
popped (some (init, last)) = some last

abbrev pub set_bucket : String → Bucket → (String → Option Bucket) → String → Option Bucket
set_bucket key b buckets k = if str_eq k key then some b else buckets k

-- What a command answers.
abbrev pub answer : (c : Command) → View → Result (Reply c)
answer (get k) v = ok (v.strings k)
answer (set_ex k x s) v = ok tt
answer (set_nx_px k x ms) v = ok (is_free (v.strings k))
answer (release_lock k o) v = ok (option_eq (v.strings k) (some o))
answer (hset h f c) v = ok tt
answer (hget h f) v = ok (lookup_hash h f v)
answer (hdel h f) v = ok tt
answer (zadd s i) v = ok tt
answer (zrem i) v = ok (has_member i v.delayed_set)
answer (zrangebyscore n l) v = ok (take l (due_ids n v.delayed_set))
answer zcard v = ok (length v.delayed_set)
answer (lpush k i) v = ok (length (v.lists k) + 1)
answer (lmove s t) v = ok (popped (pop_right (v.lists s)))
answer (blmove s t n) v = ok (popped (pop_right (v.lists s)))
answer (lrem k i) v = ok (count i (v.lists k))
answer (lrange k) v = ok (v.lists k)
answer (llen k) v = ok (length (v.lists k))
answer (sadd w) v = ok tt
answer (srem w) v = ok tt
answer smembers v = ok v.workers
answer (publish e) v = ok tt
answer (insert_job r) v = if violates r v.jobs then err unique_violation else ok r
answer (insert_event e) v = ok tt
answer (select_job i) v = ok (find_row i v.jobs)
answer (select_events i) v = ok (keep (λ e. e.job_id == i) v.events)
answer (update_job i as') v =
    if is_valid as' then ok (Option.map (assign as') (find_row i v.jobs)) else err invalid_number
answer (select_page cs l o) v = ok (take l (drop o (newest_first (keep (satisfies cs) v.jobs))))
answer (count_jobs cs) v = ok (length (keep (satisfies cs) v.jobs))
answer (insert_definition d) v = ok d
answer select_definitions v = ok v.definitions
answer select_enabled v = ok (keep (λ d. d.enabled) v.definitions)
answer (set_enabled b i) v =
    ok (Option.map (λ (d : Definition). record d { enabled = b }) (find_definition i v.definitions))
answer (set_last_run i n) v = ok tt
answer (delete_definition i) v = ok (length (keep (λ d. d.id == i) v.definitions))
answer (eval_bucket k c n) v = ok (token_bucket c n (v.buckets k)).0
answer ping v = ok tt
answer select_one v = ok tt
answer count_by_status v = ok (grouped statuses v.jobs)
answer (count_completed_within n ms) v = ok (completed_within n ms v.jobs)
answer (count_failures_within n ms) v = ok (record {
  failed = length (keep has_failed (created_within n ms v.jobs));
  total = length (created_within n ms v.jobs);
})

-- What a command changes.
abbrev pub effect : Command → View → View
effect (eval_bucket k c n) v = record v {
  buckets = set_bucket k (token_bucket c n (v.buckets k)).1 v.buckets;
}
effect (set_ex k x s) v = record v { strings = set_string k (some x) v.strings }
effect (set_nx_px k x ms) v =
    if is_free (v.strings k) then record v { strings = set_string k (some x) v.strings } else v
effect (release_lock k o) v =
    if option_eq (v.strings k) (some o)
    then record v { strings = set_string k none v.strings }
    else v
effect (hset h f c) v = write_hash h f (some c) v
effect (hdel h f) v = write_hash h f none v
effect (zadd s i) v = record v { delayed_set = schedule s i (unscheduled i v.delayed_set) }
effect (zrem i) v = record v { delayed_set = unscheduled i v.delayed_set }
effect (lpush k i) v = record v { lists = set_list k (i ∷ v.lists k) v.lists }
effect (lmove s t) v = moved s t v
effect (blmove s t n) v = moved s t v
effect (lrem k i) v = record v { lists = set_list k (without i (v.lists k)) v.lists }
effect (sadd w) v = record v { workers = w ∷ without w v.workers }
effect (srem w) v = record v { workers = without w v.workers }
effect (publish e) v = record v { published = e ∷ v.published }
effect (insert_job r) v = if violates r v.jobs then v else record v { jobs = v.jobs ++ r ∷ [] }
effect (insert_event e) v = record v { events = v.events ++ e ∷ [] }
effect (update_job i as') v =
    if is_valid as' then record v { jobs = update_rows i as' v.jobs } else v
effect (insert_definition d) v = record v { definitions = d ∷ v.definitions }
effect (set_enabled b i) v = record v {
  definitions = update_definitions i (λ d. record d { enabled = b }) v.definitions;
}
effect (set_last_run i n) v = record v {
  definitions = update_definitions i (λ d. record d { last_run_at = some n }) v.definitions;
}
effect (delete_definition i) v = record v {
  definitions = keep (λ d. not (d.id == i)) v.definitions;
}
effect _ v = v
