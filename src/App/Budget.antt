-- ===== src/App/Budget.antt =====
-- The rate limiter in front of the routes of packages/server/src/app.js: what reaches a handler.
use distributed_job_queue.Base.{
  ℕ, ◌+◌, ◌-◌, ◌*◌, ◌≤◌, ◌≡◌, refl, sym, ap, ◌∙◌, subst, String, Bool, true, false, Option, none,
  some, List, [], ◌∷◌, ◌==◌, if◌then◌else◌, arith, not,
}
use text.Mathlib.TextEquality.{eq_iff}
use distributed_job_queue.Store.Command.{
  Command, eval_bucket, ListKey, hset, hdel, lmove, blmove, job_data, heartbeats,
}
use distributed_job_queue.Store.Program.{Result, ok, err, Program, ret, throw, call, try_catch}
use distributed_job_queue.Store.View.{View, answer, effect, set_bucket, moved_by, pop_right}
use distributed_job_queue.Store.Server.{Server, IsReliable, run, play, run-play}
use distributed_job_queue.Store.Ensures.{Ensures}
use distributed_job_queue.RateLimit.{Bucket, units, token_bucket}
use distributed_job_queue.RateLimit.Budget.{serve, serve_bounded, IsOrdered}
use distributed_job_queue.Routes.Response.{Response, rate_limited, unauthorized}
use distributed_job_queue.App.{
  Config, Incoming, Endpoint, guarded, handle, api_key_auth, rate_limit, guard, dispatch, respond,
  on_error, exception,
}
use distributed_job_queue.App.Handlers.{IsPlain, IsOwn, is_own, handle-IsServing}

moved-buckets :
    (s t : ListKey) (v : View) (o : Option (List ℕ × ℕ)) → (moved_by s t v o).buckets ≡ v.buckets
moved-buckets s t v none = refl
moved-buckets s t v (some m) = refl

effect-buckets : (c : Command) (v : View) → IsPlain c → (effect c v).buckets ≡ v.buckets
effect-buckets (eval_bucket k n t) v h = absurd h
effect-buckets (hset job_data f e) v h = refl
effect-buckets (hset heartbeats f e) v h = refl
effect-buckets (hdel job_data f) v h = refl
effect-buckets (hdel heartbeats f) v h = refl
effect-buckets (lmove s t) v h = moved-buckets s t v (pop_right (v.lists s))
effect-buckets (blmove s t n) v h = moved-buckets s t v (pop_right (v.lists s))
effect-buckets c v h = ground arith

abbrev pub is_limited : Result Response → Bool
is_limited (ok r) = r.code == 429
is_limited (err e) = false

abbrev answered_by : Program Response → Program Response
answered_by p = try_catch p (λ e. ret (on_error (exception e)))

own-unlimited : (code : ℕ) → is_own code ≡ true → (code == 429) ≡ false
own-unlimited code h = ground arith

-- A handler is never mistaken for the limiter, and leaves its buckets as they are.
handler_run :
    (p : Program Response) (v : View)
    → Ensures IsPlain IsOwn p
    → let (r, v') = play (answered_by p) v in (is_limited r ≡ false) × (v'.buckets ≡ v.buckets)
unfolding on_error
handler_run (ret a) v h = (own-unlimited a.code h.keeps, refl)
handler_run (throw e) v h = (refl, refl)
handler_run (call c k) v h =
    let (code, kept) =
      handler_run (k (answer c v)) (effect c v) (record { keeps = h.keeps.1 (answer c v) }) in
    (code, kept ∙ effect-buckets c v h.keeps.0)

module _ (cfg : Config) (key : String) where
  abbrev pub request_of : (arrived : ℕ) → Endpoint → Incoming
  request_of arrived e = record { api_key = some key; arrived = arrived; target = guarded e }

  limited_run :
      (now : ℕ) (e : Endpoint) (allowed : Bool) (v : View)
      → let (r, v') =
          play
            (answered_by (
              if allowed
              then handle cfg e
              else ret (record { code = 429; body = rate_limited cfg.rate_limit_per_min })))
            v in
        (is_limited r ≡ not allowed) × (v'.buckets ≡ v.buckets)
  limited_run now e true v = handler_run (handle cfg e) v (handle-IsServing cfg e)
  limited_run now e false v = (refl, refl)

  -- What a request should come to, by the verdict of the bucket and what that leaves.
  abbrev Behaves : Bool × Bucket → Result Response × View → Type 0
  Behaves verdict ended =
      (is_limited ended.0 ≡ not verdict.0) × (ended.1.buckets key ≡ some verdict.1)

  abbrev after_key : (now : ℕ) → Endpoint → Option String → Program Response
  after_key now e found = answered_by (elim found [
    | none ↦ ret (record { code = 401; body = unauthorized })
    | some k ↦ rate_limit cfg.rate_limit_per_min k now (handle cfg e)
  ])

  stored_bucket : (b : Bucket) (v : View) → set_bucket key b v.buckets key ≡ some b
  stored_bucket b v = rw ((eq_iff key key).1 refl) refl

  known_run :
      (now : ℕ) (e : Endpoint) (v : View)
      → Behaves
          (token_bucket cfg.rate_limit_per_min now (v.buckets key))
          (play (after_key now e (some key)) v)
  unfolding rate_limit
  known_run now e v =
      let verdict = token_bucket cfg.rate_limit_per_min now (v.buckets key) in
      let v1 = effect (eval_bucket key cfg.rate_limit_per_min now) v in
      let (code, kept) = limited_run now e verdict.0 v1 in
      (code, ap (λ bs. bs key) kept ∙ stored_bucket verdict.1 v)

  guarded_run :
      (now : ℕ) (e : Endpoint) (b : Bucket) (v : View)
      → api_key_auth cfg.api_keys (some key) ≡ some key
      → v.buckets key ≡ some b
      → Behaves
          (token_bucket cfg.rate_limit_per_min now (some b))
          (play (respond cfg (request_of now e)) v)
  unfolding respond dispatch guard on_error
  guarded_run now e b v known stored =
      subst
        (λ o.
          Behaves (token_bucket cfg.rate_limit_per_min now o)
            (play (respond cfg (request_of now e)) v))
        stored
        (subst
          (λ found.
            Behaves (token_bucket cfg.rate_limit_per_min now (v.buckets key))
              (play (after_key now e found) v))
          (sym known) (known_run now e v))

  -- How many of the requests pass the limiter, one after the other.
  unfoldable pub passed : (srv : Server) → List (ℕ × Endpoint) → srv.World → ℕ
  passed srv [] w = 0
  passed srv ((now, e) ∷ reqs) w =
      let (r, w') = run srv (respond cfg (request_of now e)) w in
      (if is_limited r then 0 else 1) + passed srv reqs w'

  abbrev pub times : List (ℕ × Endpoint) → List ℕ
  times [] = []
  times ((now, e) ∷ reqs) = now ∷ times reqs

  passed-serve :
      (srv : Server) (h : IsReliable srv) (reqs : List (ℕ × Endpoint)) (b : Bucket) (w : srv.World)
      → api_key_auth cfg.api_keys (some key) ≡ some key
      → (srv.view w).buckets key ≡ some b
      → passed srv reqs w ≡ (serve cfg.rate_limit_per_min b (times reqs)).0
  unfolding passed serve
  passed-serve srv h [] b w known stored = refl
  passed-serve srv h ((now, e) ∷ reqs) b w known stored =
      let agrees = run-play srv h (respond cfg (request_of now e)) w in
      let behaves = guarded_run now e b (srv.view w) known stored in
      let verdict = token_bucket cfg.rate_limit_per_min now (some b) in
      let code : is_limited (run srv (respond cfg (request_of now e)) w).0 ≡ not verdict.0 =
        ap is_limited agrees.0 ∙ behaves.0 in
      let w' = (run srv (respond cfg (request_of now e)) w).1 in
      let kept : (srv.view w').buckets key ≡ some verdict.1 =
        ap (λ (v : View). v.buckets key) agrees.1 ∙ behaves.1 in
      let rest = passed-serve srv h reqs verdict.1 w' known kept in ground (arith, code, rest)

-- Against reliable services, of any requests with one valid key to the routes behind the hooks that pass
-- the validation of their schemas, which comes before the hooks, and whose clock readings do not
-- decrease, those that are not answered 429 are at most the tokens in the key's
-- bucket at the start and the refill of `rateLimitPerMin` a minute since, whatever the requests do.
pub passed_bounded :
    (srv : Server) (h : IsReliable srv) (cfg : Config) (key : String) (reqs : List (ℕ × Endpoint))
    (b : Bucket) (w : srv.World)
    → api_key_auth cfg.api_keys (some key) ≡ some key
    → (srv.view w).buckets key ≡ some b
    → IsOrdered b.ts (times cfg key reqs)
    → let last = (serve cfg.rate_limit_per_min b (times cfg key reqs)).1 in
      passed cfg key srv reqs w * units ≤ b.tokens + (last.ts - b.ts) * cfg.rate_limit_per_min
passed_bounded srv h cfg key reqs b w known stored ordered =
    rw (passed-serve cfg key srv h reqs b w known stored)
      (serve_bounded cfg.rate_limit_per_min b (times cfg key reqs) ordered)
