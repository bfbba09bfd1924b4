-- ===== src/Reaper/Lost.antt =====
-- requeueOrphan of packages/reaper/src/index.js takes a job out of the worker's list before it puts it
-- anywhere else.
use distributed_job_queue.Base.{ℕ, suc, ◌≡◌, ◌∙◌, ap, arith, ==_refl, count}
use distributed_job_queue.Job.{Error}
use distributed_job_queue.Store.Command.{
  processing, heartbeats, lrem, hdel, hget, select_job, job_data,
}
use distributed_job_queue.Store.Program.{Result, ok, err, Program, resume, await, ◌>>=◌, ◌>>◌}
use distributed_job_queue.Store.View.{View, effect}
use distributed_job_queue.Store.Server.{Server, run}
use distributed_job_queue.Custody.Lists.{count-without}
use distributed_job_queue.Reaper.{Config, Readings, requeue_orphan, recover}
use distributed_job_queue.Reaper.Recovery.{after_removal}

module _ (srv : Server) (cfg : Config) (t : Readings) (worker id age n : ℕ) (e : Error)
    (w : srv.World) where
  abbrev removal : Result ℕ × srv.World
  removal = srv.exec (lrem (processing worker) id) w

  abbrev looked_up : Result Unit → Program Unit
  looked_up r = do
    resume r
    raw ← await (hget job_data id)
    job ← await (select_job id)
    recover cfg t worker id age raw job

  breaks_off :
      removal.0 ≡ ok (suc n)
      → srv.exec (hdel heartbeats id) removal.1 ≡ (err e, removal.1)
      → run srv (requeue_orphan cfg t worker id age) w ≡ (err e, removal.1)
  unfolding run requeue_orphan
  breaks_off took refused =
      ap (λ r. run srv (resume r >>= after_removal cfg t worker id age) removal.1) took
      ∙ ap (λ (p : Result Unit × srv.World). run srv (looked_up p.0) p.1) refused

  -- Let the services answer LREM as documented, with the job in the list of the worker, and refuse
  -- the next command, without an effect. Then requeueOrphan throws that refusal, and the services are
  -- as they were but for the list of the worker, which LREM has changed: the job is not there any more,
  -- nor put into the delayed set.
  pub requeue_orphan-loses :
      removal.0 ≡ ok (suc n)
      → srv.view removal.1 ≡ effect (lrem (processing worker) id) (srv.view w)
      → srv.exec (hdel heartbeats id) removal.1 ≡ (err e, removal.1)
      → let ended = run srv (requeue_orphan cfg t worker id age) w in
        (ended.0 ≡ err e)
        × (srv.view ended.1 ≡ effect (lrem (processing worker) id) (srv.view w))
        × (count id ((srv.view ended.1).lists (processing worker)) ≡ 0)
        × ((srv.view ended.1).delayed_set ≡ (srv.view w).delayed_set)
  requeue_orphan-loses took shows refused =
      let left =
        ap (λ (p : Result Unit × srv.World). srv.view p.1) (breaks_off took refused) ∙ shows in
      (
        ap (λ (p : Result Unit × srv.World). p.0) (breaks_off took refused),
        left,
        ap (λ (v : View). count id (v.lists (processing worker))) left
            ∙ ground (
              arith,
              ==_refl worker,
              ==_refl id,
              count-without id id ((srv.view w).lists (processing worker)),
            ),
        ap (λ (v : View). v.delayed_set) left,
      )
