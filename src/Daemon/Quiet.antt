-- ===== src/Daemon/Quiet.antt =====
-- After a signal the timers of packages/reaper, packages/scheduler and packages/server call nothing more.
use distributed_job_queue.Base.{ℕ, ◌≤◌, ◌≡◌, ◌≢◌, refl, false, none, arith, count}
use distributed_job_queue.Custody.Lists.{count-without}
use distributed_job_queue.Daemon.{
  Kind, Daemon, timer_set, tick_begins, tick_settles, shut_down, Step, begins, settles,
  is_signalled, closes, cannot_close, exits, Reach, here, next,
}

-- A call of shutdown has stopped the timer; so has what ended the process.
record IsStopped (s : Daemon) : Type 0 where
  by_signal : (j : ℕ) → s.shutdowns j ≢ none → s.timer ≡ false
  by_exit : s.exit_code ≢ none → s.timer ≡ false

-- What stays so once the timer has stopped.
record IsQuiet (s t : Daemon) : Type 0 where
  stopped : t.timer ≡ false
  none_begun : t.begun ≡ s.begun
  none_added : (i : ℕ) → count i t.ticks ≤ count i s.ticks

module _ {kind : Kind} where
  Step-IsStopped : {s t : Daemon} → Step kind s t → IsStopped s → IsStopped t
  unfolding tick_begins tick_settles shut_down
  Step-IsStopped (begins e on) o = record { by_signal = o.by_signal; by_exit = o.by_exit }
  Step-IsStopped (settles i e) o = record { by_signal = o.by_signal; by_exit = o.by_exit }
  Step-IsStopped (is_signalled j e f) o = record { by_signal = λ k n. refl; by_exit = λ n. refl }
  Step-IsStopped (closes j c cs e f) o = record {
    by_signal = λ k n. o.by_signal j (λ g. cc);
    by_exit = o.by_exit;
  }
  Step-IsStopped (cannot_close j c cs e f) o = record {
    by_signal = o.by_signal;
    by_exit = λ n. o.by_signal j (λ g. cc);
  }
  Step-IsStopped (exits j e f) o = record {
    by_signal = o.by_signal;
    by_exit = λ n. o.by_signal j (λ g. cc);
  }

  Reach-IsStopped : {s : Daemon} → Reach kind timer_set s → IsStopped s
  unfolding timer_set
  Reach-IsStopped here = record {
    by_signal = λ j n. absurd (n refl);
    by_exit = λ n. absurd (n refl);
  }
  Reach-IsStopped (next r step) = Step-IsStopped step (Reach-IsStopped r)

  Step-IsQuiet : {s t u : Daemon} → Step kind t u → IsQuiet s t → IsQuiet s u
  unfolding tick_begins tick_settles shut_down
  Step-IsQuiet (begins e on) q = absurd (ground (arith, on, q.stopped))
  Step-IsQuiet {s} {t} (settles i e) q = record {
    stopped = q.stopped;
    none_begun = q.none_begun;
    none_added = λ k. ground (arith, count-without k i t.ticks, q.none_added k);
  }
  Step-IsQuiet (is_signalled j e f) q = record {
    stopped = refl;
    none_begun = q.none_begun;
    none_added = q.none_added;
  }
  Step-IsQuiet (closes j c cs e f) q = record {
    stopped = q.stopped;
    none_begun = q.none_begun;
    none_added = q.none_added;
  }
  Step-IsQuiet (cannot_close j c cs e f) q = record {
    stopped = q.stopped;
    none_begun = q.none_begun;
    none_added = q.none_added;
  }
  Step-IsQuiet (exits j e f) q = record {
    stopped = q.stopped;
    none_begun = q.none_begun;
    none_added = q.none_added;
  }

  Reach-IsQuiet : {s t : Daemon} → s.timer ≡ false → Reach kind s t → IsQuiet s t
  Reach-IsQuiet off here = record {
    stopped = off;
    none_begun = refl;
    none_added = λ i. omega arith;
  }
  Reach-IsQuiet off (next r step) = Step-IsQuiet step (Reach-IsQuiet off r)

  -- From a state that the process can reach and in which it has had a signal, no tick begins any more,
  -- whatever happens, and those that run are among the ones that ran then.
  pub quiet_once_signalled :
      {s t : Daemon} (j : ℕ)
      → Reach kind timer_set s
      → s.shutdowns j ≢ none
      → Reach kind s t
      → (t.begun ≡ s.begun) × ((i : ℕ) → count i t.ticks ≤ count i s.ticks)
  quiet_once_signalled j before signalled r =
      let q = Reach-IsQuiet ((Reach-IsStopped before).by_signal j signalled) r in
      (q.none_begun, q.none_added)

  -- When the process has exited, its timer had been stopped.
  pub stopped_at_exit : {s : Daemon} → Reach kind timer_set s → s.exit_code ≢ none → s.timer ≡ false
  stopped_at_exit r e = (Reach-IsStopped r).by_exit e
