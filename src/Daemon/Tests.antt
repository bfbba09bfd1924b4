-- ===== src/Daemon/Tests.antt =====
-- A reaper whose tick is still running when it exits.
use distributed_job_queue.Base.{◌≡◌, refl, some, [], ◌∷◌}
use distributed_job_queue.Store.View.{set_at}
use distributed_job_queue.Daemon.{
  Daemon, reaper, timer_set, tick_begins, shut_down, Reach, here, next, begins, is_signalled,
  closes, exits, pool_end,
}

abbrev cut_off : Daemon
unfolding timer_set tick_begins shut_down
cut_off =
    let stopping = shut_down reaper 0 (tick_begins timer_set) in
    record stopping { shutdowns = set_at 0 (some []) stopping.shutdowns; exit_code = some 0 }

still_running : cut_off.ticks ≡ 0 ∷ []
unfolding cut_off tick_begins shut_down timer_set
still_running = refl

-- shutdown does not wait for the tick that runs.
way_to_cut_off : Reach reaper timer_set cut_off
unfolding cut_off tick_begins shut_down timer_set
way_to_cut_off =
    next
      (next (next (next here (begins refl refl)) (is_signalled 0 refl refl))
        (closes 0 pool_end [] refl refl))
      (exits 0 refl refl)
