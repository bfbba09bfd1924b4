-- ===== src/RateLimit.antt =====
-- packages/server/src/middleware/rateLimit.js. Tokens are counted in units of 1/60000: a token is
-- 60000 units, and `refillPerMs` is `capacity` units. (The script counts in floating point.)
mod Tests
pub mod Budget
use distributed_job_queue.Base.{
  ℕ, ◌+◌, ◌-◌, ◌*◌, min, Bool, true, false, Option, none, some, leb, if◌then◌else◌,
}

-- The fields `tokens` and `ts` of the hash of one key.
pub record Bucket : Type 0 where
  pub tokens : ℕ
  pub ts : ℕ

abbrev pub units : ℕ
units = 60000

-- A key with no bucket, or an expired one, starts with a full bucket.
unfoldable pub current : (capacity now : ℕ) → Option Bucket → Bucket
current capacity now none = record { tokens = capacity * units; ts = now }
current capacity now (some b) = b

-- TOKEN_BUCKET_LUA: whether the request is allowed, and the bucket that it leaves.
unfoldable pub token_bucket : (capacity now : ℕ) → Option Bucket → Bool × Bucket
unfolding current
token_bucket capacity now stored =
    let b = current capacity now stored in
    let elapsed = now - b.ts in
    let tokens = min (capacity * units) (b.tokens + elapsed * capacity) in
    if leb units tokens
    then (true, record { tokens = tokens - units; ts = now })
    else (false, record { tokens = tokens; ts = now })
