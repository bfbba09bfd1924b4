-- ===== src/RedisKeys/Clashes.antt =====
-- That the names of packages/shared/src/redisKeys.js tell the keys apart.
use Prim.Native.Char.{code}
use distributed_job_queue.Base.{
  ◌≡◌, refl, ap, String, Bool, true, false, Option, none, some, ◌==◌, ==_refl, if◌then◌else◌,
}
use distributed_job_queue.Job.{high, normal, low}
use distributed_job_queue.RedisKeys.{
  Key, queue_of, delayed_set, processing_of, heartbeats, job_data, events_channel, idempotency_of,
  scheduler_lock, reaper_lock_of, workers_set, throughput_of, key_name, prefixed,
}

-- What follows a prefix.
abbrev strip : String → String → Option String
strip String.[] s = some s
strip (String.◌∷◌ c p) String.[] = none
strip (String.◌∷◌ c p) (String.◌∷◌ d s) =
    let rest = strip p s in if code c == code d then rest else none

strip-append : (p s : String) → strip p (prefixed p s) ≡ some s
strip-append String.[] s = refl
strip-append (String.◌∷◌ c p) s = rw (==_refl (code c)) (strip-append p s)

-- Nothing follows.
abbrev is_whole : Option String → Bool
is_whole (some String.[]) = true
is_whole _ = false

abbrev with_rest : Option Key → (String → Key) → Option String → Option Key
with_rest otherwise key none = otherwise
with_rest otherwise key (some id) = some (key id)

module _ (name : String) where
  abbrev or_constant : Key → Option Key → Option Key
  or_constant k rest = if is_whole (strip (key_name k) name) then some k else rest

  abbrev or_prefixed : String → (String → Key) → Option Key → Option Key
  or_prefixed prefix key rest = with_rest rest key (strip prefix name)

  -- The key with the given name.
  abbrev pub key_of : Option Key
  key_of = or_constant (queue_of high) (
      or_constant (queue_of normal) (
        or_constant (queue_of low) (
          or_constant delayed_set (
            or_constant heartbeats (
              or_constant job_data (
                or_constant events_channel (
                  or_constant scheduler_lock (
                    or_constant workers_set (
                      or_prefixed "processing:" processing_of (
                        or_prefixed "idempotency:" idempotency_of (
                          or_prefixed "lock:reaper:" reaper_lock_of
                            (or_prefixed "metrics:throughput:" throughput_of none))))))))))))

-- Every key is found again from its name, whatever the ids of the workers and the keys of the callers
-- are: no two different keys have one name.
pub key_of-key_name : (k : Key) → key_of (key_name k) ≡ some k
key_of-key_name (queue_of high) = refl
key_of-key_name (queue_of normal) = refl
key_of-key_name (queue_of low) = refl
key_of-key_name delayed_set = refl
key_of-key_name heartbeats = refl
key_of-key_name job_data = refl
key_of-key_name events_channel = refl
key_of-key_name scheduler_lock = refl
key_of-key_name workers_set = refl
key_of-key_name (processing_of worker) =
    ap (with_rest none processing_of) (strip-append "processing:" worker)
key_of-key_name (idempotency_of key) =
    ap (with_rest none idempotency_of) (strip-append "idempotency:" key)
key_of-key_name (reaper_lock_of worker) =
    ap (with_rest none reaper_lock_of) (strip-append "lock:reaper:" worker)
key_of-key_name (throughput_of minute) =
    ap (with_rest none throughput_of) (strip-append "metrics:throughput:" minute)
