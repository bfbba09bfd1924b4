-- ===== src/Custody/Tests.antt =====
-- Two workers and a promoter over one queued job.
use distributed_job_queue.Base.{
  ℕ, zero, suc, ◌≡◌, refl, ◌⊎◌, inl, inr, none, some, List, [], ◌∷◌, count,
}
use distributed_job_queue.Job.{high, normal, low}
use distributed_job_queue.Store.Command.{ListKey, queue, processing, lmove}
use distributed_job_queue.Store.View.{View, effect, set_at}
use distributed_job_queue.Store.System.{System, Documents, done, here, next, send, thread}
use distributed_job_queue.Worker.Claim.{claim_next_job, start_claim}
use distributed_job_queue.Custody.Invariant.{Place, in_list, in_hand}
use distributed_job_queue.Custody.Reach.{
  Process, claims, promotes, beats, program_of, IsOnlyAt, start, drawn, Reach-IsOnlyAt,
}

abbrev pub one_queued : ListKey → List ℕ
one_queued (queue high) = 7 ∷ []
one_queued _ = []

abbrev pub view_7 : View
view_7 = record {
  lists = one_queued;
  envelopes = λ i. none;
  beats = λ i. none;
  delayed_set = [];
  strings = λ k. none;
  workers = 1 ∷ 2 ∷ [];
  published = [];
  jobs = [];
  events = [];
  definitions = [];
  buckets = λ k. none;
}

abbrev pub crew : ℕ → Process
crew zero = claims 1 100 1
crew (suc zero) = claims 2 100 1
crew (suc (suc zero)) = promotes 100 10
crew (suc (suc (suc n))) = beats 7 100

only_queued : IsOnlyAt 7 view_7 (in_list (queue high))
only_queued = record { in_lists = at; in_set = inl refl }
  where
    at :
        (k : ListKey)
        → (count 7 (one_queued k) ≡ 0)
          ⊎ ((count 7 (one_queued k) ≡ 1) × (in_list (queue high) ≡ in_list k))
    at (queue high) = inr (refl, refl)
    at (queue normal) = inl refl
    at (queue low) = inl refl
    at (processing w) = inl refl

none_drawn : (i : ℕ) → drawn (crew i) ≡ some 7 → in_list (queue high) ≡ in_hand i
none_drawn zero e = cc
none_drawn (suc zero) e = cc
none_drawn (suc (suc zero)) e = cc
none_drawn (suc (suc (suc n))) e = cc

-- Worker 2 has taken the job by its first command.
abbrev claimed_by_2 : System
claimed_by_2 = record {
  view = effect (lmove (queue high) (processing 2)) view_7;
  threads = set_at 1 (thread (start_claim 100 high 7)) (start crew view_7).threads;
}

Reach-IsOnlyAt_example : (q : Place) × IsOnlyAt 7 claimed_by_2.view q
unfolding program_of claim_next_job
Reach-IsOnlyAt_example =
    Reach-IsOnlyAt Documents (λ c v r w d. d) crew view_7 claimed_by_2 7 (in_list (queue high))
      only_queued none_drawn (next here (send 1 _ _ _ refl done refl))
