-- ===== src/Store/Runs.antt =====
-- Runs against the documented behaviour, of a sequence and of a `try`.
use distributed_job_queue.Base.{◌≡◌, refl}
use distributed_job_queue.Job.{Error}
use distributed_job_queue.Store.Program.{
  Result, ok, err, Program, ret, throw, call, ◌>>=◌, try_catch,
}
use distributed_job_queue.Store.View.{View, answer, effect}
use distributed_job_queue.Store.Server.{play}

-- What a `catch` makes of the run of its `try`.
abbrev pub caught : {A : Type 0} → (Error → Program A) → Result A × View → Result A × View
caught f (ok a, v) = (ok a, v)
caught f (err e, v) = play (f e) v

pub play-try_catch :
    {A : Type 0} (m : Program A) (f : Error → Program A) (v : View)
    → play (try_catch m f) v ≡ caught f (play m v)
play-try_catch (ret a) f v = refl
play-try_catch (throw e) f v = refl
play-try_catch (call c k) f v = play-try_catch (k (answer c v)) f (effect c v)

-- What follows a run.
abbrev pub continued : {A B : Type 0} → (A → Program B) → Result A × View → Result B × View
continued f (ok a, v) = play (f a) v
continued f (err e, v) = (err e, v)

pub play->>= :
    {A B : Type 0} (m : Program A) (f : A → Program B) (v : View)
    → play (m >>= f) v ≡ continued f (play m v)
play->>= (ret a) f v = refl
play->>= (throw e) f v = refl
play->>= (call c k) f v = play->>= (k (answer c v)) f (effect c v)
