-- ===== src/Lifecycle/Settling.antt =====
-- A job that is alone in the system does not stay in it: within as many rounds as it has attempts it
-- is completed or dead.
use distributed_job_queue.Base.{
  ℕ, ◌+◌, ◌*◌, ◌^◌, ◌≤◌, ◌<◌, ◌≡◌, refl, sym, subst, min, Option, none, some, List, [], ◌∷◌, arith,
  length,
}
use distributed_job_queue.Backoff.Bounds.{draw-le}
use distributed_job_queue.Job.{Envelope}
use distributed_job_queue.Store.Program.{ret, ◌>>◌}
use distributed_job_queue.Store.View.{View}
use distributed_job_queue.Store.Server.{play}
use distributed_job_queue.Store.Triples.{Ends, Ends-at, Ends->>=, Ends-try_catch}
use distributed_job_queue.Queue.{promote_due_delayed_jobs}
use distributed_job_queue.Queue.Poller.{poll_delayed}
use distributed_job_queue.Worker.Claim.{Claimed, claim_next_job}
use distributed_job_queue.Worker.Lane.{run_lane, try_claim, try_process}
use distributed_job_queue.Worker.Process.{Config, Readings}
use distributed_job_queue.Worker.Process.Final.{delay_of}
use distributed_job_queue.Lifecycle.{Round, turn_of, run_round, run_rounds}
use distributed_job_queue.Lifecycle.States.{IsWaiting, IsQueued, IsSettled}
use distributed_job_queue.Lifecycle.Steps.{
  promote-idle, promote-IsQueued, claim-idle, claim-IsClaimed,
}
use distributed_job_queue.Lifecycle.Attempts.{Left, settled, waiting, attempt-Left}

-- The job waits until `due` at the latest, or is queued already.
pub data IsReady (id due : ℕ) (e : Envelope) (v : View) : Type 0 where
  delayed : (at : ℕ) → at ≤ due → IsWaiting id at e v → IsReady id due e v
  queued : IsQueued id e v → IsReady id due e v

-- Each turn of the poller comes after the longest backoff that the attempt before may have chosen.
abbrev pub IsSpaced : Config → (due : ℕ) → List Round → Type 0
IsSpaced cfg due [] = Unit {0}
IsSpaced cfg due (r ∷ rs) =
    (due ≤ r.polled_at)
    × (r.readings.random < 2 ^ 53)
    × IsSpaced cfg (r.readings.now + cfg.backoff_max_ms) rs

module _ (cfg : Config) (worker id : ℕ) where
  poll-IsQueued :
      (now due : ℕ) (e : Envelope) (v : View)
      → due ≤ now
      → IsReady id due e v
      → Ends (λ _ u. IsQueued id e u) (play (poll_delayed now) v)
  unfolding poll_delayed
  poll-IsQueued now due e v h (delayed at k d) =
      Ends-try_catch (promote_due_delayed_jobs now 100 >> ret tt) (λ _. ret tt) v
        (Ends->>= (promote_due_delayed_jobs now 100) (λ _. ret tt) v
          (promote-IsQueued now v id at e d (omega arith)) (λ n u q. Ends-at tt u refl q))
  poll-IsQueued now due e v h (queued q) =
      Ends-try_catch (promote_due_delayed_jobs now 100 >> ret tt) (λ _. ret tt) v
        (Ends->>= (promote_due_delayed_jobs now 100) (λ _. ret tt) v
          (Ends-at {Q = λ _ u. IsQueued id e u} 0 v (promote-idle now v q.set) q)
          (λ n u q'. Ends-at tt u refl q'))

  lane-Left :
      (r : Round) (e : Envelope) (v : View)
      → e.attempt ≤ e.max_retries
      → IsQueued id e v
      → Ends (λ _ u. Left cfg r.readings id e u) (play (run_lane cfg worker (turn_of r ∷ [])) v)
  unfolding run_lane try_claim
  lane-Left r e v left q =
      Ends->>= (try_claim worker r.claimed_at) _ v
        (Ends-try_catch (claim_next_job worker r.claimed_at 1) (λ _. ret none) v
          (claim-IsClaimed worker r.claimed_at v id e q))
        (λ c u h.
          Ends->>= (try_process cfg worker r.readings c) (λ _. ret tt) u
            (subst
              (λ c'.
                Ends (λ _ u'. Left cfg r.readings id e u')
                  (play (try_process cfg worker r.readings c') u))
              (sym h.0) (attempt-Left cfg r.readings worker id e u h.1 left))
            (λ _ u' l. Ends-at tt u' refl l))

  -- A round with the job ready is one attempt.
  round-Left :
      (r : Round) (due : ℕ) (e : Envelope) (v : View)
      → due ≤ r.polled_at
      → e.attempt ≤ e.max_retries
      → IsReady id due e v
      → Ends (λ _ u. Left cfg r.readings id e u) (play (run_round cfg worker r) v)
  unfolding run_round
  round-Left r due e v h left ready =
      Ends->>= (poll_delayed r.polled_at) (λ _. run_lane cfg worker (turn_of r ∷ [])) v
        (poll-IsQueued r.polled_at due e v h ready) (λ _ u q. lane-Left r e u left q)

  abbrev Stays : (most : ℕ) → View → Type 0
  Stays most v =
      (r : Round) → Ends {A = Unit} (λ _ u. IsSettled id most u) (play (run_round cfg worker r) v)

  lane-idle :
      (most : ℕ) (r : Round) (v : View)
      → IsSettled id most v
      → Ends (λ _ u. IsSettled id most u) (play (run_lane cfg worker (turn_of r ∷ [])) v)
  unfolding run_lane try_claim
  lane-idle most r v d =
      Ends->>= (try_claim worker r.claimed_at) _ v
        (Ends-try_catch (claim_next_job worker r.claimed_at 1) (λ _. ret none) v
          (Ends-at {Q = λ c u. (c ≡ none) × IsSettled id most u} none v
            (claim-idle worker r.claimed_at v d.lists) (refl, d)))
        (λ c u h.
          Ends->>= (try_process cfg worker r.readings c) (λ _. ret tt) u (nothing c u h.0 h.1)
            (λ _ u' d'. Ends-at tt u' refl d'))
    where
      nothing :
          (c : Option Claimed) (u : View)
          → c ≡ none
          → IsSettled id most u
          → Ends (λ _ u'. IsSettled id most u') (play (try_process cfg worker r.readings c) u)
      nothing none u e d' = Ends-at tt u refl d'
      nothing (some c) u e d' = cc

  round-IsSettled : (most : ℕ) (v : View) → IsSettled id most v → Stays most v
  unfolding run_round poll_delayed
  round-IsSettled most v d r =
      Ends->>= (poll_delayed r.polled_at) (λ _. run_lane cfg worker (turn_of r ∷ [])) v
        (Ends-try_catch (promote_due_delayed_jobs r.polled_at 100 >> ret tt) (λ _. ret tt) v
          (Ends->>= (promote_due_delayed_jobs r.polled_at 100) (λ _. ret tt) v
            (Ends-at {Q = λ _ u. IsSettled id most u} 0 v (promote-idle r.polled_at v d.set) d)
            (λ n u d'. Ends-at tt u refl d')))
        (λ _ u d'. lane-idle most r u d')

  rounds-IsSettled :
      (most : ℕ) (rs : List Round) (v : View)
      → IsSettled id most v
      → Ends (λ _ u. IsSettled id most u) (play (run_rounds cfg worker rs) v)
  unfolding run_rounds
  rounds-IsSettled most [] v d = Ends-at tt v refl d
  rounds-IsSettled most (r ∷ rs) v d =
      Ends->>= (run_round cfg worker r) (λ _. run_rounds cfg worker rs) v
        (round-IsSettled most v d r) (λ _ u d'. rounds-IsSettled most rs u d')

  delay_of-le-max :
      (t : Readings) (e : Envelope) → t.random < 2 ^ 53 → delay_of cfg t e ≤ cfg.backoff_max_ms
  unfolding delay_of
  delay_of-le-max t e h =
      let capped = min (cfg.backoff_base_ms * 2 ^ e.attempt) cfg.backoff_max_ms in
      omega (arith, draw-le t.random capped (2 ^ 53) h)

  -- What is left of a round, given that the next attempts settle the job.
  after :
      (r : Round) (rs : List Round) (e : Envelope) (u : View)
      → r.readings.random < 2 ^ 53
      → IsSpaced cfg (r.readings.now + cfg.backoff_max_ms) rs
      → Left cfg r.readings id e u
      → (IsReady id (r.readings.now + cfg.backoff_max_ms) (record e { attempt = e.attempt + 1 }) u
          → e.attempt + 1 ≤ e.max_retries
          → Ends (λ _ u'. IsSettled id e.max_retries u') (play (run_rounds cfg worker rs) u))
      → Ends (λ _ u'. IsSettled id e.max_retries u') (play (run_rounds cfg worker rs) u)
  after r rs e u h s (settled d) next = rounds-IsSettled e.max_retries rs u d
  after r rs e u h s (waiting more w) next =
      next
        (delayed (r.readings.now + delay_of cfg r.readings e)
          (omega (arith, delay_of-le-max r.readings e h)) w)
        (omega arith)

  -- As many rounds as attempts are left are enough.
  pub rounds-settle :
      (rs : List Round) (due : ℕ) (e : Envelope) (v : View)
      → IsReady id due e v
      → e.attempt ≤ e.max_retries
      → IsSpaced cfg due rs
      → e.max_retries < e.attempt + length rs
      → Ends (λ _ u. IsSettled id e.max_retries u) (play (run_rounds cfg worker rs) v)
  unfolding run_rounds
  rounds-settle [] due e v ready h s enough = absurd (omega arith)
  rounds-settle (r ∷ rs) due e v ready h s enough =
      Ends->>= (run_round cfg worker r) (λ _. run_rounds cfg worker rs) v
        (round-Left r due e v s.0 h ready)
        (λ _ u l. after r rs e u s.1 s.2 l (λ w more.
          rounds-settle rs (r.readings.now + cfg.backoff_max_ms)
            (record e { attempt = e.attempt + 1 }) u w more s.2 (omega arith)))
