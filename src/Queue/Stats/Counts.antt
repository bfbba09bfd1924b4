-- ===== src/Queue/Stats/Counts.antt =====
-- What the numbers of getQueueStats, of packages/server/src/lib/queue.js, count.
use distributed_job_queue.Base.{
  ℕ, zero, suc, ◌+◌, ◌*◌, ◌/◌, ◌≤◌, ◌<◌, ◌≡◌, refl, ◌∙◌, List, [], ◌∷◌, if◌then◌else◌, length,
  length-keep-le, keep, arith, inl, inr, Bool-cases, leb,
}
use native.Mathlib.Nat.{div-mul-le_self, lt-div-mul-add, mul-le-mul_right}
use distributed_job_queue.Job.{
  Status, queued, delayed, active, completed, failed, dead, status_eq, high, normal, low, Row,
}
use distributed_job_queue.Store.Command.{queue}
use distributed_job_queue.Store.Program.{ok}
use distributed_job_queue.Store.View.{
  View, count_status, grouped, statuses, completed_within, created_within, has_failed,
}
use distributed_job_queue.Store.Server.{Server, IsReliable, run, Agrees, run-eq}
use distributed_job_queue.Queue.Stats.{Stats, Quotient, count_of, rate_of, get_queue_stats}

abbrev pub total_of : List (Status × ℕ) → ℕ
total_of [] = 0
total_of (row ∷ rows) = row.1 + total_of rows

-- The numbers are those of the view at the time of the question, `now` by Postgres's clock.
pub record IsAccurate (now : ℕ) (v : View) (s : Stats) : Type 0 where
  pub in_high : s.high ≡ length (v.lists (queue high))
  pub in_normal : s.normal ≡ length (v.lists (queue normal))
  pub in_low : s.low ≡ length (v.lists (queue low))
  pub waiting : s.delayed ≡ length v.delayed_set
  pub each_status : (st : Status) → count_of st s.by_status ≡ count_status st v.jobs
  pub all_jobs : total_of s.by_status ≡ length v.jobs
  pub dead_jobs : s.dlq_count ≡ count_status dead v.jobs
  pub throughput : s.throughput_per_min ≡ completed_within now 60000 v.jobs
  pub at_most_all : s.failure_rate_last_hour ≤ 10000
  pub nearest :
      let recent = created_within now 3600000 v.jobs in
      let rate = s.failure_rate_last_hour in
      let hits = length (keep has_failed recent) in
      (rate * (length recent * 2) ≤ hits * 20000 + length recent)
      × (hits * 20000 ≤ rate * (length recent * 2) + length recent)

module _ (rows : List Row) where
  count_of-grouped : (st : Status) → count_of st (grouped statuses rows) ≡ count_status st rows
  count_of-grouped queued = ground arith
  count_of-grouped delayed = ground arith
  count_of-grouped active = ground arith
  count_of-grouped completed = ground arith
  count_of-grouped failed = ground arith
  count_of-grouped dead = ground arith

  abbrev counts : List Status → ℕ
  counts [] = 0
  counts (s ∷ ss) = count_status s rows + counts ss

  total_of-counts : (ss : List Status) → total_of (grouped ss rows) ≡ counts ss
  total_of-counts [] = refl
  total_of-counts (s ∷ ss) = ground (arith, total_of-counts ss)

abbrev hit : Status → Status → ℕ
hit st s = if status_eq st s then 1 else 0

one_hit :
    (st : Status)
    → hit st queued
        + (hit st delayed
            + (hit st active + (hit st completed + (hit st failed + (hit st dead + 0)))))
      ≡ 1
one_hit queued = refl
one_hit delayed = refl
one_hit active = refl
one_hit completed = refl
one_hit failed = refl
one_hit dead = refl

count_status-cons :
    (s : Status) (r : Row) (rows : List Row)
    → count_status s (r ∷ rows) ≡ hit r.status s + count_status s rows
count_status-cons s r rows = ground arith

counts-length : (rows : List Row) → counts rows statuses ≡ length rows
counts-length [] = refl
counts-length (r ∷ rows) = omega (
  arith,
  counts-length rows,
  one_hit r.status,
  count_status-cons queued r rows,
  count_status-cons delayed r rows,
  count_status-cons active r rows,
  count_status-cons completed r rows,
  count_status-cons failed r rows,
  count_status-cons dead r rows,
)

-- What is taken of a quotient of Numbers rounded by toFixed(4): for totals up to 2 ^ 32 the error of the
-- division decides no more than which way a tie goes.
pub record IsRounded (quotient : Quotient) : Type 0 where
  pub nearest :
      (hits total : ℕ)
      → 1 ≤ total
      → total ≤ 4294967296
      → hits ≤ total
      → (quotient hits total * (total * 2) ≤ hits * 20000 + total)
        × (hits * 20000 ≤ quotient hits total * (total * 2) + total)

-- The one that rounds every tie up.
abbrev pub half_up : Quotient
half_up hits total = (hits * 20000 + total) / (total * 2)

pub half_up-IsRounded : IsRounded half_up
half_up-IsRounded = record {
  nearest = λ hits total some_job few le.
      let a = hits * 20000 + total in
      let below : a / (total * 2) * (total * 2) ≤ a = div-mul-le_self a (total * 2) in
      let above : a < a / (total * 2) * (total * 2) + total * 2 = lt-div-mul-add (omega arith) in
      (below, omega arith);
}

module _ (quotient : Quotient) (rounded : IsRounded quotient) (hits total : ℕ)
    (few : total ≤ 4294967296) (le : hits ≤ total) where
  rate_of-nearest :
      (rate_of quotient hits total * (total * 2) ≤ hits * 20000 + total)
      × (hits * 20000 ≤ rate_of quotient hits total * (total * 2) + total)
  rate_of-nearest = by_total total few le
    where
      by_total :
          (t : ℕ)
          → t ≤ 4294967296
          → hits ≤ t
          → (rate_of quotient hits t * (t * 2) ≤ hits * 20000 + t)
            × (hits * 20000 ≤ rate_of quotient hits t * (t * 2) + t)
      by_total zero few le = omega arith
      by_total (suc n) few le = rounded.nearest hits (suc n) (omega arith) few le

  rate_of-le : rate_of quotient hits total ≤ 10000
  rate_of-le = by_total total le rate_of-nearest.0
    where
      by_total :
          (t : ℕ)
          → hits ≤ t
          → rate_of quotient hits t * (t * 2) ≤ hits * 20000 + t
          → rate_of quotient hits t ≤ 10000
      by_total zero le below = omega arith
      by_total (suc n) le below = elim (Bool-cases (leb (rate_of quotient hits (suc n)) 10000)) [
        | inl small ↦ ground (arith, small)
        | inr large ↦
            let grows : 10001 * (suc n * 2) ≤ rate_of quotient hits (suc n) * (suc n * 2) =
              mul-le-mul_right (suc n * 2) (ground (arith, large)) in
            absurd (omega (arith, grows, below))
      ]

-- Against reliable services, with a division that rounds to the nearest part and at most 2 ^ 32 jobs in
-- the last hour, the numbers of the dashboard are exact: the lengths of the four queues,
-- the number of jobs with each status, which add up to all the jobs, the dead letters, the jobs
-- completed in the last minute, and the share of the jobs of the last hour that have failed, to the
-- nearest of 10000 parts. To ask for them changes nothing.
pub get_queue_stats-IsAccurate :
    (srv : Server) (h : IsReliable srv) (quotient : Quotient) (now : ℕ) (w : srv.World)
    → IsRounded quotient
    → length (created_within now 3600000 (srv.view w).jobs) ≤ 4294967296
    → (s : Stats) × Agrees srv h (run srv (get_queue_stats quotient now) w) (ok s, srv.view w)
      × IsAccurate now (srv.view w) s
unfolding get_queue_stats
get_queue_stats-IsAccurate srv h quotient now w rounded some_jobs =
    let v = srv.view w in
    let recent = created_within now 3600000 v.jobs in
    let few = length-keep-le has_failed recent in
    (
      _,
      run-eq srv h (get_queue_stats quotient now) w refl,
      record {
        in_high = refl;
        in_normal = refl;
        in_low = refl;
        waiting = refl;
        each_status = count_of-grouped v.jobs;
        all_jobs = total_of-counts v.jobs statuses ∙ counts-length v.jobs;
        dead_jobs = count_of-grouped v.jobs dead;
        throughput = refl;
        at_most_all = rate_of-le quotient rounded _ (length recent) some_jobs few;
        nearest = rate_of-nearest quotient rounded _ (length recent) some_jobs few;
      },
    )
