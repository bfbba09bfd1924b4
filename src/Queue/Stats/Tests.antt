-- ===== src/Queue/Stats/Tests.antt =====
-- The statistics of one queued job.
use distributed_job_queue.Base.{arith}
use distributed_job_queue.Store.Program.{ok}
use distributed_job_queue.Store.Server.{Agrees, run, documented, documented-IsReliable}
use distributed_job_queue.Queue.Stats.{Stats, get_queue_stats}
use distributed_job_queue.Queue.Stats.Counts.{
  IsAccurate, half_up, half_up-IsRounded, get_queue_stats-IsAccurate,
}
use distributed_job_queue.Samples.{queued_view}

statistics_of_one_job :
    (s : Stats) × Agrees documented documented-IsReliable
      (run documented (get_queue_stats half_up 500) queued_view)
      (ok s, queued_view)
    × IsAccurate 500 queued_view s
statistics_of_one_job =
    get_queue_stats-IsAccurate documented documented-IsReliable half_up 500 queued_view
      half_up-IsRounded (omega arith)
