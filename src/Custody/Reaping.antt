-- ===== src/Custody/Reaping.antt =====
-- The reaper, packages/reaper/src/index.js, keeps to the protocol.
use distributed_job_queue.Base.{ℕ, ◌+◌, suc, zero, true, false, Option, none, some, leb, refl}
use distributed_job_queue.Job.{Row, Envelope}
use distributed_job_queue.Store.Command.{job_data, hdel, zadd}
use distributed_job_queue.Store.Program.{ret}
use distributed_job_queue.Store.Protocol.{
  Obeys-await, Obeys-ret, Obeys-last, Obeys-if, Obeys-try_catch, Obeys-for_each,
}
use distributed_job_queue.Custody.Protocol.{Obeys}
use mathlib.Core.Option.{get_or}
use distributed_job_queue.Queue.{to_envelope}
use distributed_job_queue.Reaper
use distributed_job_queue.Reaper.{
  bury, requeue_with_backoff, recover, requeue_orphan, reap_job, reap_worker, reap_if_locked,
}

bury-Obeys : (worker id age : ℕ) (e : Envelope) (h : Option ℕ) → Obeys h (bury worker id age e)
unfolding bury
bury-Obeys worker id age e h =
    Obeys-await _ _ _ tt
      λ _. Obeys-await _ _ _ tt λ _. Obeys-await _ _ _ tt λ _. Obeys-last h (hdel job_data id) tt

requeue_with_backoff-Obeys :
    (cfg : Reaper.Config) (t : Reaper.Readings) (worker id age : ℕ) (e : Envelope)
    → Obeys (some id) (requeue_with_backoff cfg t worker id age e)
unfolding requeue_with_backoff
requeue_with_backoff-Obeys cfg t worker id age e = Obeys-await _ _ _ tt λ _.
    Obeys-await _ _ _ tt
      λ _. Obeys-await _ _ _ tt λ _. Obeys-await _ _ _ tt λ _. Obeys-last (some id) (zadd _ id) refl

recover-Obeys :
    (cfg : Reaper.Config) (t : Reaper.Readings) (worker id age : ℕ) (raw : Option Envelope)
    (job : Option Row)
    → Obeys (some id) (recover cfg t worker id age raw job)
unfolding recover
recover-Obeys cfg t worker id age raw none = Obeys-ret _ tt
recover-Obeys cfg t worker id age raw (some job) =
    let e = get_or raw (to_envelope job) in
    Obeys-if _ (leb (e.attempt + 1) e.max_retries)
      (λ _. requeue_with_backoff-Obeys cfg t worker id age e)
      (λ _. bury-Obeys worker id age e (some id))

requeue_orphan-Obeys :
    (cfg : Reaper.Config) (t : Reaper.Readings) (worker id age : ℕ) (h : Option ℕ)
    → Obeys h (requeue_orphan cfg t worker id age)
unfolding requeue_orphan
requeue_orphan-Obeys cfg t worker id age h = Obeys-await _ _ _ tt (elim [
  | zero ↦ Obeys-ret h tt
  | suc n ↦ Obeys-await _ _ _ tt λ _.
      Obeys-await _ _ _ tt
        λ raw. Obeys-await _ _ _ tt λ job. recover-Obeys cfg t worker id age raw job
])

reap_job-Obeys :
    (cfg : Reaper.Config) (t : Reaper.Readings) (worker id : ℕ) (h : Option ℕ)
    → Obeys h (reap_job cfg t worker id)
unfolding reap_job
reap_job-Obeys cfg t worker id h = Obeys-await _ _ _ tt λ beat.
    Obeys-if h (Reaper.is_alive (t.now worker) cfg.orphan_timeout_ms beat) (λ _. Obeys-ret h tt)
      (λ _. requeue_orphan-Obeys cfg t worker id (Reaper.age_of (t.now worker) beat) h)

reap_worker-Obeys :
    (cfg : Reaper.Config) (t : Reaper.Readings) (worker : ℕ) (h : Option ℕ)
    → Obeys h (reap_worker cfg t worker)
unfolding reap_worker
reap_worker-Obeys cfg t worker h = Obeys-await _ _ _ tt λ ids.
    Obeys-for_each h ids tt (λ id _. reap_job cfg t worker id)
      (λ id _ j. reap_job-Obeys cfg t worker id j)

reap_if_locked-Obeys :
    (cfg : Reaper.Config) (t : Reaper.Readings) (worker : ℕ) (h : Option ℕ)
    → Obeys h (reap_if_locked cfg t worker)
unfolding reap_if_locked
reap_if_locked-Obeys cfg t worker h = Obeys-await _ _ _ tt (elim [
  | true ↦
      Obeys-try_catch h (reap_worker cfg t worker) (λ _. ret tt) (reap_worker-Obeys cfg t worker h)
        (λ e j. Obeys-ret j tt)
  | false ↦ Obeys-ret h tt
])

pub tick-Obeys :
    (cfg : Reaper.Config) (t : Reaper.Readings) (h : Option ℕ) → Obeys h (Reaper.tick cfg t)
unfolding Reaper.tick
tick-Obeys cfg t h = Obeys-await _ _ _ tt λ workers.
    Obeys-for_each h workers tt (λ worker _. reap_if_locked cfg t worker)
      (λ worker _ j. reap_if_locked-Obeys cfg t worker j)
