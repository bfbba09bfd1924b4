-- ===== src/Scheduler/Once.antt =====
-- FR-5.2: the ticks of packages/scheduler/src/index.js fire no fire time twice.
use distributed_job_queue.Base.{
  ℕ, suc, ◌+◌, ◌≤◌, ◌<◌, ◌≡◌, sym, ap, ◌∙◌, subst, Bool, Option, some, List, [], ◌∷◌, arith,
}
use mathlib.Core.Option
use distributed_job_queue.Job.{Definition}
use distributed_job_queue.Store.View.{View, find_definition}
use distributed_job_queue.Store.Server.{Server, IsReliable, run, run-play}
use distributed_job_queue.Scheduler.{CronParser, Config, tick}
use distributed_job_queue.Scheduler.Firing.{Turned, idle, fired, firings, stamped, copies}
use distributed_job_queue.Scheduler.Occurrences.{
  IsCron, since, occurrences, occurrences-le, occurrences-lt, is_due-FiresBetween,
}
use distributed_job_queue.Scheduler.Ticks.{Kept, tick-Kept}

-- A tick of some instance: what it reads from the clock, and the ids that it draws.
pub record Tick : Type 0 where
  pub instance_id : ℕ
  pub now : ℕ
  pub draw : ℕ → ℕ

abbrev pub AllBefore : (end : ℕ) → List Tick → Type 0
AllBefore end [] = Unit {0}
AllBefore end (t ∷ ts) = (t.now < end) × AllBefore end ts

module _ (srv : Server) (parser : CronParser) (cfg : Config) where
  abbrev pub run_ticks : List Tick → srv.World → srv.World
  run_ticks [] w = w
  run_ticks (t ∷ ts) w = run_ticks ts (run srv (tick parser cfg t.instance_id t.draw t.now) w).1

-- The definition with another last run.
abbrev ran : Definition → Option ℕ → Definition
ran def last = record def { last_run_at = last }

-- From one state to another: what was fired is paid for by fire times since the last run.
record Paid (i : ℕ) (fires : ℕ → Bool) (def : Definition) (end : ℕ) (v u : View) : Type 0 where
  last : Option ℕ
  found : find_definition i u.definitions ≡ some (ran def last)
  only : copies i u.definitions ≤ 1
  in_time : since last ≤ end
  paid :
      firings i u.events + occurrences fires (since def.last_run_at)
      ≤ firings i v.events + occurrences fires (since last)

module _ (parser : CronParser) (i : ℕ) (fires : ℕ → Bool) (end : ℕ) where
  Turned-Paid :
      (now : ℕ) (def : Definition) (v u : View)
      → IsCron parser def.cron_expression fires
      → find_definition i v.definitions ≡ some def
      → copies i v.definitions ≤ 1
      → since def.last_run_at ≤ end
      → now < end
      → Kept parser i now def v u
      → Paid i fires def end v u
  Turned-Paid now def v u c e one early t k = by_turn k.turned
    where
      by_turn : Turned parser i now def v u → Paid i fires def end v u
      by_turn (idle f d) = record {
        last = def.last_run_at;
        found = d ∙ e;
        only = omega (arith, one, k.copies_same);
        in_time = early;
        paid = omega (arith, f);
      }
      by_turn (fired same due f d) = record {
        last = some now;
        found = d ∙ ap (Option.map (stamped now)) e;
        only = omega (arith, one, k.copies_same);
        in_time = t;
        paid =
            let at = (is_due-FiresBetween parser fires now def c).0 due in
            omega (
              arith,
              f,
              occurrences-lt fires (since def.last_run_at) now at,
              occurrences-le fires now (suc now) (omega arith),
            );
      }

  -- One stretch after another.
  Paid-trans :
      (def : Definition) (v u x : View)
      → (p : Paid i fires def end v u) → Paid i fires (ran def p.last) end u x
      → Paid i fires def end v x
  Paid-trans def v u x p q = record {
    last = q.last;
    found = q.found;
    only = q.only;
    in_time = q.in_time;
    paid = omega (arith, p.paid, q.paid);
  }

module _ (srv : Server) (h : IsReliable srv) (parser : CronParser) (cfg : Config) (i : ℕ)
    (fires : ℕ → Bool) (end : ℕ) where
  run_ticks-Paid :
      (ticks : List Tick) (def : Definition) (w : srv.World)
      → IsCron parser def.cron_expression fires
      → find_definition i (srv.view w).definitions ≡ some def
      → copies i (srv.view w).definitions ≤ 1
      → since def.last_run_at ≤ end
      → AllBefore end ticks
      → Paid i fires def end (srv.view w) (srv.view (run_ticks srv parser cfg ticks w))
  run_ticks-Paid [] def w c e one early t = record {
    last = def.last_run_at;
    found = e;
    only = one;
    in_time = early;
    paid = omega arith;
  }
  run_ticks-Paid (t ∷ ts) def w c e one early before =
      let program = tick parser cfg t.instance_id t.draw t.now in
      let w' = (run srv program w).1 in
      let first : Paid i fires def end (srv.view w) (srv.view w') =
        Turned-Paid parser i fires end t.now def (srv.view w) (srv.view w') c e one early before.0 (
          subst (Kept parser i t.now def (srv.view w)) (sym (run-play srv h program w).1)
            (tick-Kept parser cfg t.draw i t.now def t.instance_id (srv.view w) e one)) in
      Paid-trans parser i fires end def (srv.view w) (srv.view w') _ first
        (run_ticks-Paid ts (ran def first.last) w' c first.found first.only first.in_time before.1)

  -- Against reliable services, let a definition be stored once under its id, and let cron-parser give
  -- the last time before the current date at which its expression fires. Then over any ticks of any
  -- instances, whatever they find the lock to be and whatever ids they draw, as long as all of them
  -- and its last run come before `end`, the definition is fired at most as often as its expression
  -- fires after that last run and before `end`: no fire time is used twice. (Each firing leaves an
  -- entry in `job_events`; these are counted, against the fire times before `end` and before the
  -- first time that counts.)
  pub run_ticks-once :
      (ticks : List Tick) (def : Definition) (w : srv.World)
      → IsCron parser def.cron_expression fires
      → find_definition i (srv.view w).definitions ≡ some def
      → copies i (srv.view w).definitions ≤ 1
      → since def.last_run_at ≤ end
      → AllBefore end ticks
      → firings i (srv.view (run_ticks srv parser cfg ticks w)).events
          + occurrences fires (since def.last_run_at)
        ≤ firings i (srv.view w).events + occurrences fires end
  run_ticks-once ticks def w c e one early before =
      let p = run_ticks-Paid ticks def w c e one early before in
      omega (arith, p.paid, occurrences-le fires (since p.last) end p.in_time)
