-- ===== src/Queue/Promotion.antt =====
-- promoteDueDelayedJobs of packages/server/src/lib/queue.js, over all the jobs that are due.
pub mod Line
pub mod Loop
use distributed_job_queue.Base.{
  ℕ, zero, suc, ◌+◌, ◌≤◌, ◌≡◌, refl, sym, subst, ◌∙◌, ap, Bool, true, false, Option, none, some,
  List, [], ◌∷◌, arith, length, take, count, ◌==◌, ==_refl, ==_iff, if◌then◌else◌, Bool-cases, inl,
  inr,
}
use distributed_job_queue.Job.{Row, Envelope}
use distributed_job_queue.Queue.Promotion.Line.{
  dropped, Promoting, absent, dataless, pushes, Untouched, IsPromoted, in_queues, Promoting-other,
  Promoting-gone, Promoting-pushed, Promoting-counts, Promoting-set, Untouched-trans,
  Untouched-IsPromoted, IsPromoted-Untouched, Promoting-left,
}
use distributed_job_queue.Store.Command.{zrem, hget, job_data}
use distributed_job_queue.Store.Program.{Result, ok, Program, ret, await, ◌>>=◌, for_each}
use distributed_job_queue.Store.View.{View, effect, unscheduled, due_ids, has_member, find_row}
use distributed_job_queue.Store.Server.{Server, IsReliable, run, play, run-eq}
use distributed_job_queue.Store.Runs.{continued, play->>=}
use distributed_job_queue.Queue.{promote_one, push_promoted, promote_due_delayed_jobs}
use distributed_job_queue.Queue.Promotion.Loop.{unscheduled_all, Leaves, for_each-Leaves}

count-due_ids-unscheduled :
    (now a b : ℕ) (set : List (ℕ × ℕ))
    → count a (due_ids now (unscheduled b set)) ≡ (if b == a then 0 else count a (due_ids now set))
count-due_ids-unscheduled now a b [] = ground arith
count-due_ids-unscheduled now a b (m ∷ set) = ground (arith, count-due_ids-unscheduled now a b set)

none_counted : (xs : List ℕ) → ((a : ℕ) → 1 ≤ count a xs → 1 ≤ 0) → xs ≡ []
none_counted [] h = refl
none_counted (x ∷ xs) h = absurd (omega (arith, h x (ground (arith, ==_refl x))))

due_ids-unscheduled_all :
    (now : ℕ) (ids : List ℕ) (set : List (ℕ × ℕ))
    → ((a : ℕ) → 1 ≤ count a (due_ids now set) → 1 ≤ count a ids)
    → due_ids now (unscheduled_all ids set) ≡ []
due_ids-unscheduled_all now [] set h = none_counted (due_ids now set) h
due_ids-unscheduled_all now (id ∷ ids) set h =
    due_ids-unscheduled_all now ids (unscheduled id set) covered
  where
    covered : (a : ℕ) → 1 ≤ count a (due_ids now (unscheduled id set)) → 1 ≤ count a ids
    covered a c = elim (Bool-cases (id == a)) [
      | inl e ↦ ground (arith, c, count-due_ids-unscheduled now a id set)
      | inr e ↦ ground (arith, c, count-due_ids-unscheduled now a id set, h a)
    ]

take-all : {A : Type 0} (n : ℕ) (xs : List A) → length xs ≤ n → take n xs ≡ xs
take-all zero [] h = refl
take-all (suc n) [] h = refl
take-all zero (x ∷ xs) h = absurd (omega arith)
take-all (suc n) (x ∷ xs) h = ap (λ ys. x ∷ ys) (take-all n xs (omega arith))

-- Every due job has a row, as the foreign key of job_events demands where its promotion is logged.
abbrev pub HasDueRows : (now : ℕ) → View → Type 0
HasDueRows now v =
    (a : ℕ) → 1 ≤ count a (due_ids now v.delayed_set) → (row : Row) × (find_row a v.jobs ≡ some row)

-- A job that was due, with what Redis had as its data: it has left the delayed set, and is promoted if
-- there were data.
abbrev pub IsTaken : (id : ℕ) → Option Envelope → (v u : View) → Type 0
IsTaken id none v u = has_member id u.delayed_set ≡ false
IsTaken id (some e) v u = (row : Row) × (find_row id v.jobs ≡ some row) × IsPromoted id e row v u

abbrev pub AllTaken : List ℕ → (v u : View) → Type 0
AllTaken [] v u = Unit {0}
AllTaken (id ∷ ids) v u = IsTaken id (v.envelopes id) v u × AllTaken ids v u

due_ids-has_member :
    (now a : ℕ) (set : List (ℕ × ℕ)) → 1 ≤ count a (due_ids now set) → has_member a set ≡ true
due_ids-has_member now a [] h = absurd (omega arith)
due_ids-has_member now a (m ∷ set) h = ground (arith, h, due_ids-has_member now a set)

module _ (now : ℕ) (v : View) {r : Result ℕ × View} (rows : HasDueRows now v)
    (loop : Leaves (due_ids now v.delayed_set) 0 v r) where
  taken :
      (id : ℕ)
      → 1 ≤ count id (due_ids now v.delayed_set)
      → (o : Option Envelope) → v.envelopes id ≡ o
      → IsTaken id o v loop.after
  taken id due none has_none = loop.left id due
  taken id due (some e) has_data =
      let (row, found) = rows id due in
      (
        row,
        found,
        loop.done id e row due (due_ids-has_member now id v.delayed_set due) has_data found,
      )

  all_taken :
      (ids : List ℕ)
      → ((a : ℕ) → 1 ≤ count a ids → 1 ≤ count a (due_ids now v.delayed_set))
      → AllTaken ids v loop.after
  all_taken [] h = tt
  all_taken (id ∷ ids) h = (
    taken id (h id (ground (arith, ==_refl id))) (v.envelopes id) refl,
    all_taken ids (λ a c. h a (ground (arith, c))),
  )

-- Against reliable services, let at most `limit` jobs be due, each with a row in Postgres. Then
-- promoteDueDelayedJobs returns how many entries it has added to the three queues, no job in the delayed
-- set is due any more, and every job that was due has left the set. If it has data, it stands once more
-- in the queue of its priority, and its row is 'queued' and otherwise unchanged.
pub promote_due_delayed_jobs-all :
    (srv : Server) (h : IsReliable srv) (now limit : ℕ) (w : srv.World)
    → length (due_ids now (srv.view w).delayed_set) ≤ limit
    → HasDueRows now (srv.view w)
    → let final = run srv (promote_due_delayed_jobs now limit) w in
      (total : ℕ) × (final.0 ≡ ok total)
      × (in_queues (srv.view final.1) ≡ in_queues (srv.view w) + total)
      × (due_ids now (srv.view final.1).delayed_set ≡ [])
      × AllTaken (due_ids now (srv.view w).delayed_set) (srv.view w) (srv.view final.1)
unfolding promote_due_delayed_jobs
promote_due_delayed_jobs-all srv h now limit w few rows =
    let v = srv.view w in
    let due = due_ids now v.delayed_set in
    let loop = for_each-Leaves due 0 v in
    let agrees =
      run-eq srv h (promote_due_delayed_jobs now limit) w
        (ap (λ ids. play (for_each ids 0 promote_one) v) (take-all limit due few) ∙ loop.ends) in
    (
      loop.total,
      agrees.0,
      subst (λ u. in_queues u ≡ in_queues v + loop.total) (sym agrees.1)
          (omega (arith, loop.counted)),
      ap (λ (u : View). due_ids now u.delayed_set) agrees.1
          ∙ ap (due_ids now) loop.set_then
          ∙ due_ids-unscheduled_all now due v.delayed_set (λ a c. c),
      subst (AllTaken due v) (sym agrees.1) (all_taken now v rows loop due (λ a c. c)),
    )
