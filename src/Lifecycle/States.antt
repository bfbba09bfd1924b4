-- ===== src/Lifecycle/States.antt =====
-- Where a job that is alone in the system can be between two operations.
use distributed_job_queue.Base.{ℕ, ◌+◌, ◌≤◌, ◌≡◌, ◌⊎◌, none, some, [], ◌∷◌, if◌then◌else◌}
use distributed_job_queue.Job.{Status, queued, delayed, completed, dead, Envelope}
use distributed_job_queue.Store.Command.{ListKey, queue, processing}
use distributed_job_queue.Store.View.{View, list_eq}
use distributed_job_queue.Worker.Process.Endings.{HasRow}

-- The job is in this list, and all others are empty.
abbrev pub IsOnlyIn : (id : ℕ) → ListKey → View → Type 0
IsOnlyIn id p v = (k : ListKey) → v.lists k ≡ (if list_eq k p then id ∷ [] else [])

abbrev pub IsEmptied : View → Type 0
IsEmptied v = (k : ListKey) → v.lists k ≡ []

-- Delayed until `due`.
pub record IsWaiting (id due : ℕ) (e : Envelope) (v : View) : Type 0 where
  pub lists : IsEmptied v
  pub set : v.delayed_set ≡ (id, due) ∷ []
  pub described : v.envelopes id ≡ some e
  pub stored : HasRow id delayed e.attempt v

pub record IsQueued (id : ℕ) (e : Envelope) (v : View) : Type 0 where
  pub lists : IsOnlyIn id (queue e.priority) v
  pub set : v.delayed_set ≡ []
  pub described : v.envelopes id ≡ some e
  pub stored : HasRow id queued e.attempt v

pub record IsClaimed (worker id : ℕ) (e : Envelope) (v : View) : Type 0 where
  pub lists : IsOnlyIn id (processing worker) v
  pub set : v.delayed_set ≡ []
  pub described : v.envelopes id ≡ some e
  pub stored : HasRow id queued e.attempt v

-- No process has anything left to do with the job: it is 'completed' after `max` failed attempts at
-- most, or 'dead' after one more.
pub record IsSettled (id max : ℕ) (v : View) : Type 0 where
  pub lists : IsEmptied v
  pub set : v.delayed_set ≡ []
  pub described : v.envelopes id ≡ none
  pub status : Status
  pub attempt : ℕ
  pub stored : HasRow id status attempt v
  pub is_final : ((status ≡ completed) × (attempt ≤ max)) ⊎ ((status ≡ dead) × (attempt ≡ max + 1))
