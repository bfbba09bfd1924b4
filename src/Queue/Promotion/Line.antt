-- ===== src/Queue/Promotion/Line.antt =====
-- One due job of promoteDueDelayedJobs in packages/server/src/lib/queue.js.
use distributed_job_queue.Base.{
  ℕ, ◌+◌, ◌≡◌, refl, sym, ap, subst, ◌∙◌, inl, inr, Bool-cases, true, false, none, some, List, [],
  ◌∷◌, ◌++◌, arith, length, count, ◌==◌, ==_refl, if◌then◌else◌,
}
use distributed_job_queue.Job.{
  Priority, high, normal, low, queued, Row, Envelope, promoted_to_queue, promoted,
}
use distributed_job_queue.Store.Command.{ListKey, queue, set_status}
use distributed_job_queue.Store.View.{
  View, unscheduled, has_member, set_list, list_eq, update_rows, find_row,
}
use distributed_job_queue.Custody.Lists.{list_eq→eq, list_eq_refl, has_member-unscheduled}
use distributed_job_queue.Store.Rows.{find_row-update, find_row-other}

-- The view without the job in the delayed set, and then with the job in its queue.
abbrev pub dropped : ℕ → View → View
dropped id v = record v { delayed_set = unscheduled id v.delayed_set }

abbrev pub pushed : ℕ → Envelope → View → View
pushed id e v = record (dropped id v) {
  lists = set_list (queue e.priority) (id ∷ v.lists (queue e.priority)) v.lists;
  jobs = update_rows id (set_status queued ∷ []) v.jobs;
  events = v.events ++ record { job_id = id; status = queued; message = promoted_to_queue } ∷ [];
  published = record { job_id = id; status = queued; message = promoted } ∷ v.published;
}

-- What becomes of the services, and how many jobs are promoted.
pub data Promoting (id : ℕ) (v : View) : View → ℕ → Type 0 where
  absent : has_member id v.delayed_set ≡ false → Promoting id v (dropped id v) 0
  dataless :
      has_member id v.delayed_set ≡ true → v.envelopes id ≡ none → Promoting id v (dropped id v) 0
  pushes :
      {e : Envelope}
      → has_member id v.delayed_set ≡ true
      → v.envelopes id ≡ some e
      → Promoting id v (pushed id e v) 1

-- Nothing has changed for a job.
pub record Untouched (a : ℕ) (v u : View) : Type 0 where
  pub member : has_member a u.delayed_set ≡ has_member a v.delayed_set
  pub row : find_row a u.jobs ≡ find_row a v.jobs
  pub listed : (k : ListKey) → count a (u.lists k) ≡ count a (v.lists k)
  pub data_of : u.envelopes a ≡ v.envelopes a

-- The job has left the delayed set, it stands once more in its queue, and its row is 'queued' and
-- otherwise as it was.
pub record IsPromoted (a : ℕ) (e : Envelope) (row : Row) (v u : View) : Type 0 where
  pub member : has_member a u.delayed_set ≡ false
  pub queued_row : find_row a u.jobs ≡ some (record row { status = queued })
  pub listed : count a (u.lists (queue e.priority)) ≡ count a (v.lists (queue e.priority)) + 1

-- The number of entries of the three queues.
abbrev pub in_queues : View → ℕ
in_queues v =
    length (v.lists (queue high)) + length (v.lists (queue normal)) + length (v.lists (queue low))

count-push :
    (a id : ℕ) (k j : ListKey) (lists : ListKey → List ℕ)
    → count a (set_list k (id ∷ lists k) lists j)
      ≡ count a (lists j) + (if list_eq j k then (if id == a then 1 else 0) else 0)
count-push a id k j lists = elim (Bool-cases (list_eq j k)) [
  | inl e ↦ rw (e, list_eq→eq j k e) (ground arith)
  | inr e ↦ rw e (ground arith)
]

-- The one queue that has grown.
length-push :
    (id : ℕ) (p : Priority) (lists : ListKey → List ℕ)
    → let pushed_lists = set_list (queue p) (id ∷ lists (queue p)) lists in
      length (pushed_lists (queue high))
        + length (pushed_lists (queue normal))
        + length (pushed_lists (queue low))
      ≡ length (lists (queue high)) + length (lists (queue normal)) + length (lists (queue low)) + 1
length-push id high lists = omega arith
length-push id normal lists = omega arith
length-push id low lists = omega arith

flip_eq : (a id : ℕ) → (id == a) ≡ false → (a == id) ≡ false
flip_eq a id differs = ground (arith, differs)

pub Promoting-other :
    (a id : ℕ) {v u : View} {n : ℕ} → (id == a) ≡ false → Promoting id v u n → Untouched a v u
Promoting-other a id {v} differs (absent _) = record {
  member = has_member-unscheduled a id v.delayed_set ∙ rw differs refl;
  row = refl;
  listed = λ k. refl;
  data_of = refl;
}
Promoting-other a id {v} differs (dataless _ _) = record {
  member = has_member-unscheduled a id v.delayed_set ∙ rw differs refl;
  row = refl;
  listed = λ k. refl;
  data_of = refl;
}
Promoting-other a id {v} differs (pushes {e} _ _) = record {
  member = has_member-unscheduled a id v.delayed_set ∙ rw differs refl;
  row = find_row-other a id (set_status queued ∷ []) v.jobs (flip_eq a id differs);
  listed = λ k. ground (arith, differs, count-push a id (queue e.priority) k v.lists);
  data_of = refl;
}

pub Promoting-gone :
    (id : ℕ) {v u : View} {n : ℕ}
    → has_member id v.delayed_set ≡ false
    → Promoting id v u n
    → Untouched id v u
Promoting-gone id {v} gone (absent _) = record {
  member = ground (arith, gone, has_member-unscheduled id id v.delayed_set);
  row = refl;
  listed = λ k. refl;
  data_of = refl;
}
Promoting-gone id gone (dataless m _) = cc
Promoting-gone id gone (pushes m _) = cc

pub Promoting-pushed :
    (id : ℕ) (e : Envelope) (row : Row) {v u : View} {n : ℕ}
    → has_member id v.delayed_set ≡ true
    → v.envelopes id ≡ some e
    → find_row id v.jobs ≡ some row
    → Promoting id v u n
    → IsPromoted id e row v u
Promoting-pushed id e row m d found (absent was_not) = cc
Promoting-pushed id e row m d found (dataless _ no_data) = cc
Promoting-pushed id e row {v} m d found (pushes {e = f} _ has_data) =
    let same : f ≡ e = cc in
    subst (λ g. IsPromoted id e row v (pushed id g v)) (sym same)
      (record {
        member = ground (arith, has_member-unscheduled id id v.delayed_set, ==_refl id);
        queued_row = find_row-update id (set_status queued ∷ []) v.jobs row found;
        listed =
            count-push id id (queue e.priority) (queue e.priority) v.lists
            ∙ rw (list_eq_refl (queue e.priority), ==_refl id) refl;
      })

pub Promoting-counts :
    (id : ℕ) {v u : View} {n : ℕ} → Promoting id v u n → in_queues u ≡ in_queues v + n
Promoting-counts id (absent _) = omega arith
Promoting-counts id (dataless _ _) = omega arith
Promoting-counts id {v} (pushes {e} _ _) = length-push id e.priority v.lists

pub Promoting-set :
    (id : ℕ) {v u : View} {n : ℕ}
    → Promoting id v u n
    → u.delayed_set ≡ unscheduled id v.delayed_set
Promoting-set id (absent _) = refl
Promoting-set id (dataless _ _) = refl
Promoting-set id (pushes _ _) = refl

pub Untouched-trans : (a : ℕ) {v u t : View} → Untouched a v u → Untouched a u t → Untouched a v t
Untouched-trans a p q = record {
  member = q.member ∙ p.member;
  row = q.row ∙ p.row;
  listed = λ k. q.listed k ∙ p.listed k;
  data_of = q.data_of ∙ p.data_of;
}

-- A promotion, and nothing for the job before it or after it.
pub Untouched-IsPromoted :
    (a : ℕ) (e : Envelope) (row : Row) {v u t : View}
    → Untouched a v u
    → IsPromoted a e row u t
    → IsPromoted a e row v t
Untouched-IsPromoted a e row p q = record {
  member = q.member;
  queued_row = q.queued_row;
  listed = q.listed ∙ ap (λ n. n + 1) (p.listed (queue e.priority));
}

pub IsPromoted-Untouched :
    (a : ℕ) (e : Envelope) (row : Row) {v u t : View}
    → IsPromoted a e row v u
    → Untouched a u t
    → IsPromoted a e row v t
IsPromoted-Untouched a e row p q = record {
  member = q.member ∙ p.member;
  queued_row = q.row ∙ p.queued_row;
  listed = q.listed (queue e.priority) ∙ p.listed;
}

pub Promoting-left :
    (id : ℕ) {v u : View} {n : ℕ} → Promoting id v u n → has_member id u.delayed_set ≡ false
Promoting-left id {v} t =
    ap (has_member id) (Promoting-set id t)
    ∙ has_member-unscheduled id id v.delayed_set
    ∙ rw (==_refl id) refl
