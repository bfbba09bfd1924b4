-- ===== src/Lifecycle/Steps.antt =====
-- The steps of a job that is alone: promotion, claim, and the end of an attempt.
use distributed_job_queue.Base.{
  ℕ, ◌≤◌, ◌≡◌, refl, ◌∙◌, ap, Bool, true, Option, none, some, List, [], ◌∷◌, ◌++◌, arith, ==_refl,
  if◌then◌else◌, take,
}
use distributed_job_queue.Job.{
  Priority, high, normal, low, queued, promoted, promoted_to_queue, Envelope,
}
use distributed_job_queue.Store.Command.{
  ListKey, queue, processing, set_status, zrem, hget, job_data,
}
use distributed_job_queue.Store.Program.{ok, Program, ret, await, ◌>>=◌, for_each}
use distributed_job_queue.Store.Rows.{find_row-update}
use distributed_job_queue.Store.View.{
  View, list_eq, set_list, due_ids, has_member, effect, unscheduled, update_rows, assign, moved,
  moved_by, pop_right, find_row,
}
use distributed_job_queue.Store.Server.{play}
use distributed_job_queue.Store.Runs.{continued, play->>=}
use distributed_job_queue.Store.Triples.{Ends, Ends-at}
use distributed_job_queue.Queue.{promote_due_delayed_jobs, promote_one, push_promoted}
use distributed_job_queue.Worker.Claim.{claim_next_job}
use distributed_job_queue.Worker.Claim.Order.{first_in_line, after_claim, play-claim_next_job}
use distributed_job_queue.Custody.Lists.{list_eq_refl}
use distributed_job_queue.Worker.Process.Final.{entry}
use distributed_job_queue.Lifecycle.States.{IsOnlyIn, IsEmptied, IsWaiting, IsQueued, IsClaimed}

pub IsOnlyIn-set_list :
    (id : ℕ) (p k : ListKey) (v : View)
    → IsEmptied v
    → set_list p (id ∷ v.lists p) v.lists k ≡ (if list_eq k p then id ∷ [] else [])
IsOnlyIn-set_list id p k v empty = ground (arith, empty k, empty p)

module _ (now : ℕ) (v : View) where
  -- With nothing delayed, a promotion changes nothing.
  pub promote-idle : v.delayed_set ≡ [] → play (promote_due_delayed_jobs now 100) v ≡ (ok 0, v)
  unfolding promote_due_delayed_jobs
  promote-idle none_delayed =
      ap (λ set. play (for_each (take 100 (due_ids now set)) 0 promote_one) v) none_delayed

  module _ (id due : ℕ) (e : Envelope) (waits : IsWaiting id due e v) (is_due : due ≤ now) where
    due_now : take 100 (due_ids now v.delayed_set) ≡ id ∷ []
    due_now = rw waits.set (ground (arith, is_due))

    member : has_member id v.delayed_set ≡ true
    member = rw waits.set (ground (arith, ==_refl id))

    abbrev gone : View
    gone = effect (zrem id) v

    abbrev rest_of : Option Envelope → Program ℕ
    rest_of raw = elim raw [ none ↦ ret 0 | some envelope ↦ push_promoted id envelope 0 ]

    abbrev after_zrem : Bool → Program ℕ
    after_zrem b = if b then (await (hget job_data id) >>= λ raw. rest_of raw) else ret 0

    abbrev promoted_view : View
    promoted_view = record v {
      lists = set_list (queue e.priority) (id ∷ v.lists (queue e.priority)) v.lists;
      delayed_set = unscheduled id v.delayed_set;
      jobs = update_rows id (set_status queued ∷ []) v.jobs;
      events = v.events ++ entry id queued promoted_to_queue ∷ [];
      published = entry id queued promoted ∷ v.published;
    }

    play-promote_one : play (promote_one id 0) v ≡ (ok 1, promoted_view)
    unfolding promote_one push_promoted
    play-promote_one =
        ap (λ b. play (after_zrem b) gone) member
        ∙ ap (λ raw. play (rest_of raw) gone) waits.described

    promoted-IsQueued : IsQueued id e promoted_view
    promoted-IsQueued = record {
      lists = λ k. IsOnlyIn-set_list id (queue e.priority) k v waits.lists;
      set = rw waits.set (ground (arith, ==_refl id));
      described = waits.described;
      stored = record {
        row = assign (set_status queued ∷ []) waits.stored.row;
        found =
            find_row-update id (set_status queued ∷ []) v.jobs waits.stored.row waits.stored.found;
        has_status = refl;
        has_attempt = waits.stored.has_attempt;
      };
    }

    -- A promotion takes a job that is due to its queue.
    pub promote-IsQueued : Ends (λ n u. IsQueued id e u) (play (promote_due_delayed_jobs now 100) v)
    unfolding promote_due_delayed_jobs
    promote-IsQueued =
        Ends-at 1 promoted_view
          (ap (λ ids. play (for_each ids 0 promote_one) v) due_now
            ∙ play->>= (promote_one id 0) (λ m. for_each [] m promote_one) v
            ∙ ap (continued (λ m. for_each [] m promote_one)) play-promote_one)
          promoted-IsQueued

IsOnlyIn-head :
    (id : ℕ) (p : Priority) (v : View) → IsOnlyIn id (queue p) v → first_in_line v ≡ some (p, id)
IsOnlyIn-head id high v only = rw (only (queue high)) refl
IsOnlyIn-head id normal v only = rw (only (queue high), only (queue normal)) refl
IsOnlyIn-head id low v only = rw (only (queue high), only (queue normal), only (queue low)) refl

IsOnlyIn-here :
    (id : ℕ) (p : Priority) (v : View) → IsOnlyIn id (queue p) v → v.lists (queue p) ≡ id ∷ []
IsOnlyIn-here id p v only = only (queue p) ∙ rw (list_eq_refl (queue p)) refl

-- The job moves from its queue to the list of the worker.
IsOnlyIn-moved :
    (id worker : ℕ) (p : Priority) (v : View)
    → IsOnlyIn id (queue p) v
    → IsOnlyIn id (processing worker) (moved (queue p) (processing worker) v)
IsOnlyIn-moved id worker p v only (queue q) =
    ground (arith, IsOnlyIn-here id p v only, only (queue q))
IsOnlyIn-moved id worker p v only (processing w) =
    ground (arith, IsOnlyIn-here id p v only, only (processing w), only (processing worker))

-- LMOVE changes lists only.
moved_by-lists :
    (source target : ListKey) (v : View) (o : Option (List ℕ × ℕ))
    → moved_by source target v o ≡ record v { lists = (moved_by source target v o).lists }
moved_by-lists source target v none = refl
moved_by-lists source target v (some (init, last)) = refl

module _ (worker now : ℕ) (v : View) where
  -- With nothing queued, a claim returns nothing and changes nothing.
  pub claim-idle : IsEmptied v → play (claim_next_job worker now 1) v ≡ (ok none, v)
  claim-idle empty =
      play-claim_next_job worker now 1 v
      ∙ rw (empty (queue high), empty (queue normal), empty (queue low)) refl

  keeps :
      (e : Envelope)
      → moved (queue e.priority) (processing worker) v
        ≡ record v { lists = (moved (queue e.priority) (processing worker) v).lists }
  keeps e =
      moved_by-lists (queue e.priority) (processing worker) v
        (pop_right (v.lists (queue e.priority)))

  -- A claim takes the job to the worker's list.
  pub claim-IsClaimed :
      (id : ℕ) (e : Envelope)
      → IsQueued id e v
      → Ends
          (λ c u.
            (c ≡ some (record { id = id; priority = e.priority; envelope = some e }))
            × IsClaimed worker id e u)
          (play (claim_next_job worker now 1) v)
  claim-IsClaimed id e at =
      Ends-at _ _
        (play-claim_next_job worker now 1 v
          ∙ ap (after_claim worker now v) (IsOnlyIn-head id e.priority v at.lists))
        (
          ap (λ raw. some (record { id = id; priority = e.priority; envelope = raw })) at.described,
          record {
            lists = IsOnlyIn-moved id worker e.priority v at.lists;
            set = ap (λ (u : View). u.delayed_set) (keeps e) ∙ at.set;
            described = ap (λ (u : View). u.envelopes id) (keeps e) ∙ at.described;
            stored = record {
              row = at.stored.row;
              found = ap (λ (u : View). find_row id u.jobs) (keeps e) ∙ at.stored.found;
              has_status = at.stored.has_status;
              has_attempt = at.stored.has_attempt;
            };
          },
        )
