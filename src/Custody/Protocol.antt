-- ===== src/Custody/Protocol.antt =====
-- Custody as a protocol of one process: it may push a job only if it holds it in its hand. A job
-- comes into the hand when a command that removes it answers that it did, and leaves it by a push.
use distributed_job_queue.Base.{ℕ, suc, ◌≡◌, true, Option, none, some}
use distributed_job_queue.Store.Command.{Command, Reply, lpush, zadd, zrem, lrem}
use distributed_job_queue.Store.Program.{Result, ok, Program}
use distributed_job_queue.Store.Protocol
use distributed_job_queue.Store.Protocol.{Protocol}

abbrev pub next_hand : Option ℕ → (c : Command) → Result (Reply c) → Option ℕ
next_hand h (zrem i) (ok true) = some i
next_hand h (lrem k i) (ok (suc n)) = some i
next_hand h (lpush k i) r = none
next_hand h (zadd s i) r = none
next_hand h c r = h

abbrev pub Permits : Option ℕ → Command → Type 0
Permits h (lpush k i) = h ≡ some i
Permits h (zadd s i) = h ≡ some i
Permits h c = Unit

abbrev pub custody : Protocol
custody = record { State = Option ℕ; next = next_hand; Permits = Permits }

abbrev pub Obeys : {A : Type 0} → Option ℕ → Program A → Type 0
Obeys h p = Protocol.Obeys custody h p
