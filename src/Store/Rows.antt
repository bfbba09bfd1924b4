-- ===== src/Store/Rows.antt =====
-- Laws of the documented tables: a row is found again after an update.
use distributed_job_queue.Base.{ℕ, ◌≡◌, refl, none, some, List, [], ◌∷◌, arith, false, ◌==◌}
use distributed_job_queue.Job.{Row}
use distributed_job_queue.Store.Command.{
  Assign, set_status, set_attempt, set_error, set_worker, set_scheduled, set_completed,
}
use distributed_job_queue.Store.View.{assign, find_row, update_rows}

pub assign-id : (as' : List Assign) (r : Row) → (assign as' r).id ≡ r.id
assign-id [] r = refl
assign-id (set_status s ∷ as') r = assign-id as' (record r { status = s })
assign-id (set_attempt (some n) ∷ as') r = assign-id as' (record r { attempt = n })
assign-id (set_attempt none ∷ as') r = assign-id as' r
assign-id (set_error m ∷ as') r = assign-id as' (record r { error = m })
assign-id (set_worker w ∷ as') r = assign-id as' (record r { worker_id = w })
assign-id (set_scheduled t ∷ as') r = assign-id as' (record r { scheduled_for = t })
assign-id (set_completed t ∷ as') r = assign-id as' (record r { completed_at = t })

pub find_row-update :
    (id : ℕ) (as' : List Assign) (rows : List Row) (row : Row)
    → find_row id rows ≡ some row
    → find_row id (update_rows id as' rows) ≡ some (assign as' row)
find_row-update id as' [] row e = cc
find_row-update id as' (r ∷ rows) row e =
    ground (arith, assign-id as' r, find_row-update id as' rows row)

pub find_row-other :
    (j id : ℕ) (as' : List Assign) (rows : List Row)
    → (j == id) ≡ false
    → find_row j (update_rows id as' rows) ≡ find_row j rows
find_row-other j id as' [] e = refl
find_row-other j id as' (r ∷ rows) e =
    ground (arith, e, assign-id as' r, find_row-other j id as' rows e)
