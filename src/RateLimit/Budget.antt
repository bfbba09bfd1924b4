-- ===== src/RateLimit/Budget.antt =====
-- What the token bucket of packages/server/src/middleware/rateLimit.js lets through.
use distributed_job_queue.Base.{
  ℕ, ◌+◌, ◌-◌, ◌*◌, ◌≤◌, ◌≡◌, sym, ap, subst, ◌∙◌, min, Bool, true, false, none, some, List, [],
  ◌∷◌, arith, leb, if◌then◌else◌,
}
use native.Mathlib.Nat.{add-mul, mul-le-mul_right}
use distributed_job_queue.RateLimit.{Bucket, units, token_bucket}

-- The requests of one key, by the reading of the clock at each: how many are allowed, and the bucket
-- at the end.
unfoldable pub serve : (capacity : ℕ) → Bucket → List ℕ → ℕ × Bucket
serve capacity b [] = (0, b)
serve capacity b (now ∷ times) =
    let (allowed, b') = token_bucket capacity now (some b) in
    let (granted, last) = serve capacity b' times in ((if allowed then 1 else 0) + granted, last)

-- The clock does not run backwards from one request to the next.
abbrev pub IsOrdered : ℕ → List ℕ → Type 0
IsOrdered ts [] = Unit {0}
IsOrdered ts (now ∷ times) = (ts ≤ now) × IsOrdered now times

one_request :
    (capacity now : ℕ) (b : Bucket)
    → b.ts ≤ now
    → let (allowed, b') = token_bucket capacity now (some b) in
      ((if allowed then units else 0) + b'.tokens ≤ b.tokens + (now - b.ts) * capacity)
      × (b'.ts ≡ now)
      × (b'.tokens ≤ capacity * units)
unfolding token_bucket
one_request capacity now b h = ground arith

-- Two waits refill as much as the wait from the first to the last.
refill-add : (a b c r : ℕ) → a ≤ b → b ≤ c → (b - a) * r + (c - b) * r ≡ (c - a) * r
refill-add a b c r h k = sym (add-mul (b - a) (c - b) r) ∙ ap (λ t. t * r) (omega arith)

add-request :
    (allowed : Bool) (granted before between after refill refill' refill'' : ℕ)
    → (if allowed then units else 0) + between ≤ before + refill
    → granted * units + after ≤ between + refill'
    → refill + refill' ≡ refill''
    → ((if allowed then 1 else 0) + granted) * units + after ≤ before + refill''
add-request true granted before between after refill refill' refill'' h k e = omega arith
add-request false granted before between after refill refill' refill'' h k e = omega arith

spent_by :
    (capacity : ℕ) (b : Bucket) (times : List ℕ)
    → IsOrdered b.ts times
    → let (granted, last) = serve capacity b times in
      (granted * units + last.tokens ≤ b.tokens + (last.ts - b.ts) * capacity) × (b.ts ≤ last.ts)
unfolding serve
spent_by capacity b [] h = omega arith
spent_by capacity b (now ∷ times) h =
    let (allowed, b') = token_bucket capacity now (some b) in
    let one = one_request capacity now b h.0 in
    let ih = spent_by capacity b' times (subst (λ t. IsOrdered t times) (sym one.1) h.1) in
    let last = (serve capacity b' times).1 in
    (
      add-request allowed _ b.tokens b'.tokens last.tokens ((now - b.ts) * capacity)
          ((last.ts - b'.ts) * capacity) ((last.ts - b.ts) * capacity) one.0 ih.0
          (rw one.1
            (refill-add b.ts now last.ts capacity h.0 (subst (λ t. t ≤ last.ts) one.1 ih.1))),
      omega arith,
    )

-- Over any requests of a key whose clock readings do not decrease, the tokens spent are at most
-- those in the bucket at the start and the refill of `capacity` a minute since.
pub serve_bounded :
    (capacity : ℕ) (b : Bucket) (times : List ℕ)
    → IsOrdered b.ts times
    → let (granted, last) = serve capacity b times in
      granted * units ≤ b.tokens + (last.ts - b.ts) * capacity
serve_bounded capacity b times h = omega (arith, spent_by capacity b times h)

refilled :
    (capacity tokens elapsed : ℕ)
    → 60000 ≤ elapsed
    → min (capacity * units) (tokens + elapsed * capacity) ≡ capacity * units
refilled capacity tokens elapsed h =
    let enough : 60000 * capacity ≤ elapsed * capacity = mul-le-mul_right capacity h in omega arith

abbrev settle : ℕ → ℕ → Bool × Bucket
settle now tokens =
    if leb units tokens
    then (true, record { tokens = tokens - units; ts = now })
    else (false, record { tokens = tokens; ts = now })

-- A bucket untouched for a minute answers as a missing one, so its expiry after two minutes is not
-- seen: the request is allowed or not as for a new key, and leaves
-- the same bucket.
pub token_bucket-expired :
    (capacity now : ℕ) (b : Bucket)
    → b.ts + 60000 ≤ now
    → token_bucket capacity now (some b) ≡ token_bucket capacity now none
unfolding token_bucket
token_bucket-expired capacity now b h =
    ap (settle now) (refilled capacity b.tokens (now - b.ts) (omega arith) ∙ omega arith)
