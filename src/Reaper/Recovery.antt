-- ===== src/Reaper/Recovery.antt =====
-- requeueOrphan of packages/reaper/src/index.js: the reaper leaves an orphaned job as the worker
-- leaves one whose attempt has failed.
use distributed_job_queue.Base.{
  ℕ, suc, ◌+◌, ◌*◌, ◌/◌, ◌^◌, ◌≤◌, ◌<◌, ◌≡◌, refl, sym, ◌∙◌, subst, ap, if◌then◌else◌, min, true,
  false, Option, none, some, List, [], ◌∷◌, arith, leb, ==_refl, count,
}
use mathlib.Core.Option.{get_or}
use distributed_job_queue.Job.{
  delayed, dead, Row, Envelope, reaped, reaped_retry, reaped_requeued, reaped_exhausted,
  moved_to_dlq_after_crash,
}
use distributed_job_queue.Store.Command.{
  processing, heartbeats, job_data, hdel, hget, lrem, select_job, Assign, set_status, set_attempt,
  set_error, set_worker, set_scheduled,
}
use distributed_job_queue.Store.Program.{Result, ok, Program, ret, await, ◌>>=◌, ◌>>◌}
use distributed_job_queue.Store.Rows.{find_row-update}
use distributed_job_queue.Store.View.{View, effect, set_at, schedule, unscheduled, find_row}
use distributed_job_queue.Store.Server.{Server, IsReliable, run, play, run-eq}
use distributed_job_queue.Queue.{to_envelope}
use distributed_job_queue.Worker.Process.Final.{staged, entry, released}
use distributed_job_queue.Worker.Process.Endings.{IsRetried, IsBuried, released-IsReleased}
use distributed_job_queue.Reaper.{Config, Readings, requeue_orphan, recover, none_removed}

-- The envelope in Redis, or else the one that Postgres gives.
abbrev pub known : ℕ → View → Row → Envelope
known id v job = get_or (v.envelopes id) (to_envelope job)

module _ (cfg : Config) (t : Readings) (worker id age : ℕ) where
  unfoldable pub delay_of : Envelope → ℕ
  delay_of e = t.random id * min (cfg.backoff_base_ms * 2 ^ e.attempt) cfg.backoff_max_ms / 2 ^ 53

  abbrev retry_updates : Envelope → List Assign
  retry_updates e =
      set_status delayed
      ∷ set_attempt (some (e.attempt + 1))
      ∷ set_error (some (reaped worker age))
      ∷ set_worker none
      ∷ set_scheduled (some (t.db_now id + delay_of e))
      ∷ []

  abbrev dead_updates : Envelope → List Assign
  dead_updates e =
      set_status dead
      ∷ set_attempt (some (e.attempt + 1))
      ∷ set_error (some (reaped worker age))
      ∷ set_worker none
      ∷ []

  abbrev retrying : Envelope → View → View
  retrying e v =
      let next = e.attempt + 1 in
      let told =
        staged id (retry_updates e)
          (entry id delayed (reaped_retry worker age next e.max_retries (delay_of e)))
          (entry id delayed (reaped_requeued worker age next)) v in
      record told {
        envelopes = set_at id (some (record e { attempt = next })) told.envelopes;
        delayed_set = schedule (t.later id + delay_of e) id (unscheduled id told.delayed_set);
      }

  abbrev burying : Envelope → View → View
  burying e v =
      let told =
        staged id (dead_updates e) (entry id dead (reaped_exhausted worker age))
          (entry id dead moved_to_dlq_after_crash) v in
      record told { envelopes = set_at id none told.envelopes }

  -- What requeueOrphan does once LREM has answered.
  abbrev pub after_removal : ℕ → Program Unit
  after_removal removed = if none_removed removed then ret tt else (do
    await (hdel heartbeats id)
    raw ← await (hget job_data id)
    job ← await (select_job id)
    recover cfg t worker id age raw job)

  module _ (v : View) where
    play-retry :
        (e : Envelope) (raw : Option Envelope) (job : Row)
        → get_or raw (to_envelope job) ≡ e
        → leb (e.attempt + 1) e.max_retries ≡ true
        → play (recover cfg t worker id age raw (some job)) v ≡ (ok tt, retrying e v)
    unfolding recover delay_of
    play-retry e raw job same more = rw same (rw more refl)

    play-bury :
        (e : Envelope) (raw : Option Envelope) (job : Row)
        → get_or raw (to_envelope job) ≡ e
        → leb (e.attempt + 1) e.max_retries ≡ false
        → play (recover cfg t worker id age raw (some job)) v ≡ (ok tt, burying e v)
    unfolding recover
    play-bury e raw job same more = rw same (rw more refl)

  module _ (v : View) (n : ℕ) (job : Row) (held : count id (v.lists (processing worker)) ≡ suc n)
      (found : find_row id v.jobs ≡ some job) where
    play-requeue_orphan :
        play (requeue_orphan cfg t worker id age) v
        ≡ play (recover cfg t worker id age (v.envelopes id) (some job)) (released worker id v)
    unfolding requeue_orphan
    play-requeue_orphan =
        ap (λ c. play (after_removal c) (effect (lrem (processing worker) id) v)) held
        ∙ ap (λ o. play (recover cfg t worker id age (v.envelopes id) o) (released worker id v))
            found

    retrying-IsRetried :
        (e : Envelope)
        → IsRetried worker id (delay_of e) (t.later id) e v (retrying e (released worker id v))
    retrying-IsRetried e = record {
      released = released-IsReleased worker id (retrying e v);
      described = ground (arith, ==_refl id);
      waiting = refl;
      stored = record {
        row = _;
        found = find_row-update id (retry_updates e) _ job found;
        has_status = refl;
        has_attempt = refl;
      };
    }

    burying-IsBuried : (e : Envelope) → IsBuried worker id e v (burying e (released worker id v))
    burying-IsBuried e = record {
      released = released-IsReleased worker id (burying e v);
      described = ground (arith, ==_refl id);
      waiting = refl;
      stored = record {
        row = _;
        found = find_row-update id (dead_updates e) _ job found;
        has_status = refl;
        has_attempt = refl;
      };
    }

module _ (cfg : Config) (t : Readings) (worker id age n : ℕ) (job : Row) (srv : Server)
    (h : IsReliable srv) (w : srv.World) where
  abbrev ended : Result (Unit {0}) × srv.World
  ended = run srv (requeue_orphan cfg t worker id age) w

  -- Against reliable services, let a job that has a row stand in the list of a worker, and let
  -- attempts remain by its data in Redis or, where those are gone, by its row. Then requeueOrphan
  -- takes the job from that list and schedules a retry: its heartbeat is gone, its data count one
  -- attempt more, its row is 'delayed' with that attempt, and the delayed set has it at the end of
  -- the backoff.
  pub requeue_orphan-retries :
      count id ((srv.view w).lists (processing worker)) ≡ suc n
      → find_row id (srv.view w).jobs ≡ some job
      → (known id (srv.view w) job).attempt < (known id (srv.view w) job).max_retries
      → let e = known id (srv.view w) job in
        (ended.0 ≡ ok tt)
        × IsRetried worker id
            (delay_of cfg t worker id age e)
            (t.later id)
            e
            (srv.view w)
            (srv.view ended.1)
  requeue_orphan-retries held found more =
      let v = srv.view w in
      let e = known id v job in
      let agrees = run-eq srv h (requeue_orphan cfg t worker id age) w (
        play-requeue_orphan cfg t worker id age v n job held found
        ∙ play-retry cfg t worker id age (released worker id v) e (v.envelopes id) job refl
            (ground (arith, more))) in
      (
        agrees.0,
        subst (IsRetried worker id (delay_of cfg t worker id age e) (t.later id) e v) (sym agrees.1)
            (retrying-IsRetried cfg t worker id age v n job held found e),
      )

  -- Against reliable services, let a job that has a row stand in the list of a worker, with its
  -- attempts used up by its data in Redis or, where those are gone, by its row. Then requeueOrphan
  -- gives the job up: it leaves that list, its heartbeat and its data are gone, its row is 'dead'
  -- with one attempt more, and no retry is scheduled.
  pub requeue_orphan-gives_up :
      count id ((srv.view w).lists (processing worker)) ≡ suc n
      → find_row id (srv.view w).jobs ≡ some job
      → (known id (srv.view w) job).max_retries ≤ (known id (srv.view w) job).attempt
      → (ended.0 ≡ ok tt)
        × IsBuried worker id (known id (srv.view w) job) (srv.view w) (srv.view ended.1)
  requeue_orphan-gives_up held found no_more =
      let v = srv.view w in
      let e = known id v job in
      let agrees = run-eq srv h (requeue_orphan cfg t worker id age) w (
        play-requeue_orphan cfg t worker id age v n job held found
        ∙ play-bury cfg t worker id age (released worker id v) e (v.envelopes id) job refl
            (ground (arith, no_more))) in
      (
        agrees.0,
        subst (IsBuried worker id e v) (sym agrees.1)
            (burying-IsBuried cfg t worker id age v n job held found e),
      )
