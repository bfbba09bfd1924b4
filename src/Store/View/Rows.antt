-- ===== src/Store/View/Rows.antt =====
-- What Postgres makes of the rows that it holds, by its documentation.
use distributed_job_queue.Base.{
  ℕ, ◌+◌, Option, none, some, List, [], ◌∷◌, map, Bool, true, false, ◌&&◌, ◌||◌, ltb, leb, ◌==◌,
  if◌then◌else◌, length, keep,
}
use text.Mathlib.Text.{◌==◌ as str_eq}
use distributed_job_queue.Job.{
  Row, Definition, Status, queued, delayed, active, completed, failed, dead, status_eq,
}
use distributed_job_queue.Store.Command.{
  Assign, set_status, set_attempt, set_error, set_worker, set_scheduled, set_completed, Condition,
  status_is, type_is,
}

abbrev pub find_row : ℕ → List Row → Option Row
find_row id [] = none
find_row id (r ∷ rs) = let rest = find_row id rs in if r.id == id then some r else rest

abbrev pub assign : List Assign → Row → Row
assign [] r = r
assign (set_status s ∷ as') r = assign as' (record r { status = s })
assign (set_attempt (some n) ∷ as') r = assign as' (record r { attempt = n })
assign (set_attempt none ∷ as') r = assign as' r
assign (set_error m ∷ as') r = assign as' (record r { error = m })
assign (set_worker w ∷ as') r = assign as' (record r { worker_id = w })
assign (set_scheduled t ∷ as') r = assign as' (record r { scheduled_for = t })
assign (set_completed t ∷ as') r = assign as' (record r { completed_at = t })

-- An integer column refuses NaN.
abbrev pub is_valid : List Assign → Bool
is_valid [] = true
is_valid (set_attempt none ∷ as') = false
is_valid (_ ∷ as') = is_valid as'

abbrev pub update_rows : ℕ → List Assign → List Row → List Row
update_rows id as' = map (λ r. if r.id == id then assign as' r else r)

abbrev pub option_eq : Option ℕ → Option ℕ → Bool
option_eq (some a) (some b) = a == b
option_eq _ _ = false

-- The primary key, and the unique index on the idempotency keys that are not null.
abbrev pub violates : Row → List Row → Bool
violates n [] = false
violates n (r ∷ rs) = r.id == n.id || option_eq r.idempotency_key n.idempotency_key || violates n rs

abbrev pub satisfies : List Condition → Row → Bool
satisfies [] r = true
satisfies (status_is s ∷ cs) r = status_eq r.status s && satisfies cs r
satisfies (type_is t ∷ cs) r = str_eq r.type t && satisfies cs r

-- ORDER BY created_at DESC.
abbrev pub insert_newest : Row → List Row → List Row
insert_newest r [] = r ∷ []
insert_newest r (q ∷ qs) =
    let later = q ∷ insert_newest r qs in
    if leb q.created_at r.created_at then r ∷ q ∷ qs else later

abbrev pub newest_first : List Row → List Row
newest_first [] = []
newest_first (r ∷ rs) = insert_newest r (newest_first rs)

abbrev pub find_definition : ℕ → List Definition → Option Definition
find_definition id [] = none
find_definition id (d ∷ ds) =
    let rest = find_definition id ds in if d.id == id then some d else rest

abbrev pub update_definitions : ℕ → (Definition → Definition) → List Definition → List Definition
update_definitions id f = map (λ d. if d.id == id then f d else d)

-- COUNT(*) of the rows with a status, and GROUP BY status, which has no empty group.
abbrev pub count_status : Status → List Row → ℕ
count_status s rows = length (keep (λ r. status_eq r.status s) rows)

abbrev pub grouped : List Status → List Row → List (Status × ℕ)
grouped [] rows = []
grouped (s ∷ ss) rows =
    let rest = grouped ss rows in
    if count_status s rows == 0 then rest else (s, count_status s rows) ∷ rest

abbrev pub statuses : List Status
statuses = queued ∷ delayed ∷ active ∷ completed ∷ failed ∷ dead ∷ []

abbrev pub is_recent : ℕ → ℕ → Option ℕ → Bool
is_recent now ms none = false
is_recent now ms (some t) = ltb now (t + ms)

abbrev pub completed_within : ℕ → ℕ → List Row → ℕ
completed_within now ms rows =
    length (keep (λ r. status_eq r.status completed && is_recent now ms r.completed_at) rows)

abbrev pub created_within : ℕ → ℕ → List Row → List Row
created_within now ms = keep (λ r. is_recent now ms (some r.created_at))

abbrev pub has_failed : Row → Bool
has_failed r = status_eq r.status failed || status_eq r.status dead
