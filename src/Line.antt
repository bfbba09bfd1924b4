-- ===== src/Line.antt =====
-- What the queues of packages/server/src/lib/queue.js and packages/worker/src/claim.js promise together,
-- without the services: three lines of waiting jobs, served oldest first, the high line before the
-- normal one and that before the low one.
mod Tests
pub mod Lists
pub mod Steps
pub mod Refines
use distributed_job_queue.Base.{
  ℕ, Bool, true, false, Option, none, some, List, [], ◌∷◌, ◌++◌, ◌==◌, if◌then◌else◌,
}
use distributed_job_queue.Job.{Priority, high, normal, low, priority_eq}
use distributed_job_queue.Worker.Claim.Order.{or_else}

-- The jobs that wait, by priority, the oldest first.
abbrev pub Line : Type 0
Line = Priority → List ℕ

abbrev pub first : List ℕ → Option ℕ
first [] = none
first (x ∷ xs) = some x

abbrev pub others : List ℕ → List ℕ
others [] = []
others (x ∷ xs) = xs

unfoldable pub arrive : Priority → ℕ → Line → Line
arrive p id line q = if priority_eq q p then line p ++ id ∷ [] else line q

abbrev pub next_up : Line → Option (Priority × ℕ)
next_up line =
    or_else (first (line high)) high
      (or_else (first (line normal)) normal (or_else (first (line low)) low none))

abbrev pub leave : Option (Priority × ℕ) → Line → Line
leave none line q = line q
leave (some (p, id)) line q = if priority_eq q p then others (line p) else line q
