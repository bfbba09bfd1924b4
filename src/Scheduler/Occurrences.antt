-- ===== src/Scheduler/Occurrences.antt =====
-- isDue of packages/scheduler/src/index.js against the fire times of a cron expression.
use distributed_job_queue.Base.{
  ℕ, zero, suc, ◌+◌, ◌≤◌, ◌<◌, ◌≡◌, ◌↔◌, inl, inr, String, Bool, true, Option, none, some, arith,
  leb, if◌then◌else◌, Option-cases, Bool-cases,
}
use native.Mathlib.Nat.{le_refl}
use distributed_job_queue.Job.{Definition}
use distributed_job_queue.Scheduler.{CronParser, is_due, is_due_since}

-- What cron-parser documents: `prev` is the last fire time before the current date, or none where
-- there is none.
pub record IsCron (parser : CronParser) (cron : String) (fires : ℕ → Bool) : Type 0 where
  pub sound : (now p : ℕ) → parser cron now ≡ some p → (fires p ≡ true) × (p < now)
  pub complete :
      (now q : ℕ) → fires q ≡ true → q < now → (p : ℕ) × (parser cron now ≡ some p) × (q ≤ p)

-- The first time that counts after a run.
abbrev pub since : (last_run_at : Option ℕ) → ℕ
since none = 0
since (some last) = suc last

-- A fire time in [a, b).
pub record FiresBetween (fires : ℕ → Bool) (a b : ℕ) : Type 0 where
  pub time : ℕ
  pub fires_then : fires time ≡ true
  pub from : a ≤ time
  pub before : time < b

-- How many fire times there are before `t`.
abbrev pub occurrences : (fires : ℕ → Bool) (t : ℕ) → ℕ
occurrences fires zero = 0
occurrences fires (suc t) = occurrences fires t + (if fires t then 1 else 0)

pub occurrences-le :
    (fires : ℕ → Bool) (a b : ℕ) → a ≤ b → occurrences fires a ≤ occurrences fires b
occurrences-le fires zero b h = omega arith
occurrences-le fires (suc a) zero h = absurd (omega arith)
occurrences-le fires (suc a) (suc b) h = elim (Bool-cases (leb (suc a) b)) [
  | inl e ↦ ground (arith, e, occurrences-le fires (suc a) b)
  | inr e ↦ let same : a ≡ b = ground (arith, e) in rw same (le_refl _)
]

pub occurrences-lt :
    (fires : ℕ → Bool) (a b : ℕ)
    → FiresBetween fires a b
    → occurrences fires a < occurrences fires b
occurrences-lt fires a b f = ground (
  arith,
  f.fires_then,
  occurrences-le fires a f.time f.from,
  occurrences-le fires (suc f.time) b f.before,
)

module _ (parser : CronParser) (fires : ℕ → Bool) (now : ℕ) where
  since-le-prev :
      (last : Option ℕ) (p : ℕ) → p < now → is_due_since last p now ≡ true → since last ≤ p
  since-le-prev none p h e = omega arith
  since-le-prev (some l) p h e = ground arith

  prev-is_due_since :
      (last : Option ℕ) (p : ℕ) → p < now → since last ≤ p → is_due_since last p now ≡ true
  prev-is_due_since none p h e = ground arith
  prev-is_due_since (some l) p h e = ground arith

  -- Where cron-parser gives the last fire time before the current date, a definition is due exactly
  -- when its cron expression fires at some time after its last run and before now.
  pub is_due-FiresBetween :
      (def : Definition)
      → IsCron parser def.cron_expression fires
      → (is_due parser def now ≡ true) ↔ FiresBetween fires (since def.last_run_at) now
  unfolding is_due
  is_due-FiresBetween def c = elim (Option-cases (parser def.cron_expression now)) [
    | inl e ↦ (
      λ d. ground (arith, e, d),
      λ f. let (p, q, le) = c.complete now f.time f.fires_then f.before in ground (arith, e, q),
    )
    | inr (p, e) ↦ (
      λ d. record {
        time = p;
        fires_then = (c.sound now p e).0;
        from = since-le-prev def.last_run_at p (c.sound now p e).1 (ground (arith, e, d));
        before = (c.sound now p e).1;
      },
      λ f.
          let (q, g, le) = c.complete now f.time f.fires_then f.before in
          let same : q ≡ p = ground (arith, e, g) in
          let late =
            prev-is_due_since def.last_run_at p (c.sound now p e).1 (omega (arith, f.from)) in
          ground (arith, e, late),
    )
  ]
