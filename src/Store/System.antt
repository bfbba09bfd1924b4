-- ===== src/Store/System.antt =====
-- Any number of processes at once: each step sends one command of one thread, and the services
-- answer it, refuse it, or run it and lose the answer. A thread that never moves again has crashed.
use distributed_job_queue.Base.{ℕ, Option, ◌≡◌, String}
use distributed_job_queue.RateLimit.{Bucket}
use distributed_job_queue.Job.{Error}
use distributed_job_queue.Store.Command.{Command, Reply, StringKey}
use distributed_job_queue.Store.Program.{Result, err, Program, ret, call, ◌>>◌}
use distributed_job_queue.Store.View.{View, answer, effect, set_at}

-- What may come of a command, by the documentation of the services.
pub data Documents (c : Command) (v : View) : Result (Reply c) → View → Type 0 where
  done : Documents c v (answer c v) (effect c v)
  refused : (e : Error) → Documents c v (err e) v
  lost : (e : Error) → Documents c v (err e) (effect c v)

abbrev pub Services : Type 1
Services = (c : Command) → View → Result (Reply c) → View → Type 0

-- The services do nothing that their documentation does not say.
abbrev pub IsDocumented : Services → Type 0
IsDocumented Serves =
    (c : Command) (v : View) (r : Result (Reply c)) (v' : View)
    → Serves c v r v'
    → Documents c v r v'

pub record System : Type 0 where
  pub view : View
  pub threads : ℕ → Program Unit

-- A process whose result nobody reads.
abbrev pub thread : {A : Type 0} → Program A → Program Unit
thread p = p >> ret tt

module _ (Serves : Services) where
  pub data Step (s s' : System) : Type 0 where
    send :
        (i : ℕ) (c : Command) (k : Result (Reply c) → Program Unit) (r : Result (Reply c))
        → s.threads i ≡ call c k
        → Serves c s.view r s'.view
        → s'.threads ≡ set_at i (k r) s.threads
        → Step s s'
    -- Keys with a time to live vanish, and others may be written.
    expire :
        (strings : StringKey → Option ℕ) (buckets : String → Option Bucket)
        → s' ≡ record {
          view = record s.view { strings = strings; buckets = buckets };
          threads = s.threads;
        }
        → Step s s'

  pub data Reach (s : System) : System → Type 0 where
    here : Reach s s
    next : {t u : System} → Reach s t → Step t u → Reach s u
