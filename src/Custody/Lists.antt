-- ===== src/Custody/Lists.antt =====
-- How the commands on lists and on the sorted set change the places of one id.
use distributed_job_queue.Base.{
  ℕ, ◌+◌, ◌≡◌, refl, ap, true, false, ◌||◌, none, some, List, [], ◌∷◌, arith, ◌==◌, if◌then◌else◌,
  count, Option-cases, inl, inr,
}
use distributed_job_queue.Job.{Priority, high, normal, low, priority_eq}
use distributed_job_queue.Store.Command.{ListKey, queue, processing}
use distributed_job_queue.Store.View.{
  list_eq, without, pop_right, unscheduled, schedule, has_member,
}

priority_eq→eq : (p q : Priority) → priority_eq p q ≡ true → p ≡ q
priority_eq→eq p q h = ground arith

pub list_eq→eq : (j k : ListKey) → list_eq j k ≡ true → j ≡ k
list_eq→eq (queue p) (queue q) h = ap queue (priority_eq→eq p q h)
list_eq→eq (processing v) (processing w) h = ground arith
list_eq→eq (queue p) (processing w) h = cc
list_eq→eq (processing v) (queue q) h = cc

priority_eq_refl : (p : Priority) → priority_eq p p ≡ true
priority_eq_refl high = refl
priority_eq_refl normal = refl
priority_eq_refl low = refl

pub list_eq_refl : (k : ListKey) → list_eq k k ≡ true
list_eq_refl (queue p) = priority_eq_refl p
list_eq_refl (processing w) = ground arith

pub count-without :
    (a b : ℕ) (xs : List ℕ) → count a (without b xs) ≡ (if b == a then 0 else count a xs)
count-without a b [] = ground arith
count-without a b (x ∷ xs) = ground (arith, count-without a b xs)

pop_right-none : (xs : List ℕ) → pop_right xs ≡ none → xs ≡ []
pop_right-none [] e = refl
pop_right-none (x ∷ xs) e = ground arith

pub count-pop_right :
    (a last : ℕ) (xs init : List ℕ)
    → pop_right xs ≡ some (init, last)
    → count a xs ≡ count a init + (if last == a then 1 else 0)
count-pop_right a last [] init e = cc
count-pop_right a last (x ∷ xs) init e = elim (Option-cases (pop_right xs)) [
  | inl p ↦ ground (arith, p, pop_right-none xs p)
  | inr ((front, end), p) ↦ ground (arith, p, count-pop_right a end xs front p)
]

pub has_member-unscheduled :
    (a b : ℕ) (ms : List (ℕ × ℕ))
    → has_member a (unscheduled b ms) ≡ (if b == a then false else has_member a ms)
has_member-unscheduled a b [] = ground arith
has_member-unscheduled a b (m ∷ ms) = ground (arith, has_member-unscheduled a b ms)

pub has_member-schedule :
    (a s b : ℕ) (ms : List (ℕ × ℕ)) → has_member a (schedule s b ms) ≡ (b == a || has_member a ms)
has_member-schedule a s b [] = refl
has_member-schedule a s b (m ∷ ms) = ground (arith, has_member-schedule a s b ms)
