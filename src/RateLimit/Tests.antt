-- ===== src/RateLimit/Tests.antt =====
-- Requests against a bucket of two.
use distributed_job_queue.Base.{◌*◌, ◌+◌, ◌≡◌, refl, ◌≤◌, none, some, [], ◌∷◌, arith}
use distributed_job_queue.RateLimit.{Bucket, units, token_bucket}
use distributed_job_queue.RateLimit.Budget.{serve, serve_bounded, token_bucket-expired}

abbrev full : Bucket
full = record { tokens = 120000; ts = 0 }

serve_counts : (serve 2 full (0 ∷ 0 ∷ 0 ∷ 30000 ∷ [])).0 ≡ 3
unfolding serve token_bucket
serve_counts = refl

serve_bounded_run : 3 * units ≤ 120000 + 30000 * 2
unfolding serve token_bucket
serve_bounded_run =
    serve_bounded 2 full (0 ∷ 0 ∷ 0 ∷ 30000 ∷ [])
      (omega arith, (omega arith, (omega arith, (omega arith, tt))))

token_bucket-expired_run :
    token_bucket 2 60000 (some (record { tokens = 0; ts = 0 })) ≡ token_bucket 2 60000 none
token_bucket-expired_run =
    token_bucket-expired 2 60000 (record { tokens = 0; ts = 0 }) (omega arith)
