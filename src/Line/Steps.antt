-- ===== src/Line/Steps.antt =====
-- What an enqueueing and a claim do to the lines of waiting jobs.
use distributed_job_queue.Base.{
  ℕ, ◌≡◌, refl, ap, ◌∙◌, Bool, true, false, Option, none, some, List, [], ◌∷◌, ◌++◌, if◌then◌else◌,
}
use distributed_job_queue.Job.{Priority, high, normal, low, priority_eq, Row}
use distributed_job_queue.Store.Command.{ListKey, queue, processing}
use distributed_job_queue.Store.View.{View, moved_by, pop_right}
use distributed_job_queue.Queue.Enqueue.{created, remembered, placed}
use distributed_job_queue.Worker.Claim.Order.{first_in_line, after_claim}
use distributed_job_queue.Line.{Line, others, arrive, next_up, leave}
use distributed_job_queue.Line.Lists.{from_right, left_by, oldest-first, from_right-left}

-- The lines are what the Redis lists of the queues hold.
abbrev pub IsLine : View → Line → Type 0
IsLine v line = (q : Priority) → from_right (v.lists (queue q)) ≡ line q

same_queue :
    (q p : Priority) (lists : ListKey → List ℕ)
    → lists (queue q) ≡ (if priority_eq q p then lists (queue p) else lists (queue q))
same_queue high high lists = refl
same_queue normal normal lists = refl
same_queue low low lists = refl
same_queue high normal lists = refl
same_queue high low lists = refl
same_queue normal high lists = refl
same_queue normal low lists = refl
same_queue low high lists = refl
same_queue low normal lists = refl

moved-lists :
    (worker : ℕ) (p q : Priority) (v : View) (o : Option (List ℕ × ℕ))
    → (moved_by (queue p) (processing worker) v o).lists (queue q)
      ≡ (if priority_eq q p then left_by o (v.lists (queue p)) else v.lists (queue q))
moved-lists worker p q v none = same_queue q p v.lists
moved-lists worker p q v (some m) = refl

remembered-lists : (key : Option ℕ) (id : ℕ) (v : View) → (remembered key id v).lists ≡ v.lists
remembered-lists none id v = refl
remembered-lists (some k) id v = refl

placed-lists :
    (t : Option ℕ) (p q : Priority) (id : ℕ) (v : View)
    → t ≡ none
    → (placed t p id v).lists (queue q)
      ≡ (if priority_eq q p then id ∷ v.lists (queue p) else v.lists (queue q))
placed-lists none p q id v e = refl
placed-lists (some at) p q id v e = cc

module _ (v : View) (line : Line) (is_line : IsLine v line) where
  pub first_in_line-next_up : first_in_line v ≡ next_up line
  first_in_line-next_up =
      rw
        (
          oldest-first (v.lists (queue high)),
          oldest-first (v.lists (queue normal)),
          oldest-first (v.lists (queue low)),
          is_line high,
          is_line normal,
          is_line low,
        )
        refl

  taken :
      (b : Bool) (p q : Priority)
      → from_right (
          if b
          then left_by (pop_right (v.lists (queue p))) (v.lists (queue p))
          else v.lists (queue q))
        ≡ (if b then others (line p) else line q)
  taken true p q = from_right-left (v.lists (queue p)) ∙ ap others (is_line p)
  taken false p q = is_line q

  pub after_claim-IsLine :
      (worker now : ℕ) (found : Option (Priority × ℕ))
      → IsLine (after_claim worker now v found).1 (leave found line)
  after_claim-IsLine worker now none q = is_line q
  after_claim-IsLine worker now (some (p, id)) q =
      ap from_right (moved-lists worker p q v (pop_right (v.lists (queue p))))
      ∙ taken (priority_eq q p) p q

  joined :
      (b : Bool) (p q : Priority) (id : ℕ)
      → from_right (if b then id ∷ v.lists (queue p) else v.lists (queue q))
        ≡ (if b then line p ++ id ∷ [] else line q)
  joined true p q id = ap (λ xs. xs ++ id ∷ []) (is_line p)
  joined false p q id = is_line q

  pub created-IsLine :
      (row : Row)
      → row.scheduled_for ≡ none
      → IsLine (created row v) (arrive row.priority row.id line)
  unfolding arrive
  created-IsLine row at_once q =
      ap from_right (
        placed-lists row.scheduled_for row.priority q row.id _ at_once
        ∙ ap
            (λ lists.
              if priority_eq q row.priority
              then row.id ∷ lists (queue row.priority)
              else lists (queue q))
            (remembered-lists row.idempotency_key row.id _))
      ∙ joined (priority_eq q row.priority) row.priority q row.id
