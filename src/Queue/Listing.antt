-- ===== src/Queue/Listing.antt =====
-- listJobs of packages/server/src/lib/queue.js.
use distributed_job_queue.Base.{ℕ, ◌-◌, ◌*◌, max, String, Option, none, some, List, [], ◌∷◌, ◌++◌}
use distributed_job_queue.Job.{Status, Row}
use distributed_job_queue.Store.Command.{Condition, status_is, type_is, select_page, count_jobs}
use distributed_job_queue.Store.Program.{Program, ret, await, ◌>>=◌}

pub record Page : Type 0 where
  pub jobs : List Row
  pub total : ℕ
  pub page : ℕ
  pub page_size : ℕ

abbrev status_conditions : Option Status → List Condition
status_conditions none = []
status_conditions (some s) = status_is s ∷ []

abbrev type_conditions : Option String → List Condition
type_conditions none = []
type_conditions (some t) = type_is t ∷ []

unfoldable pub list_jobs : Option Status → Option String → (page page_size : ℕ) → Program Page
list_jobs status type page page_size = do
  let conditions = status_conditions status ++ type_conditions type
  let offset = (max 1 page - 1) * page_size
  rows ← await (select_page conditions page_size offset)
  total ← await (count_jobs conditions)
  ret (record { jobs = rows; total = total; page = page; page_size = page_size })
