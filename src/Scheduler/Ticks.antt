-- ===== src/Scheduler/Ticks.antt =====
-- A whole tick of packages/scheduler/src/index.js, lock included, as a definition sees it.
use distributed_job_queue.Base.{
  ℕ, ◌≤◌, ◌≡◌, refl, sym, ap, ◌∙◌, subst, Bool, true, false, if◌then◌else◌, Option, none, some,
  List, [], ◌∷◌, arith, ◌==◌, keep, Bool-cases, ◌⊎◌, inl, inr,
}
use distributed_job_queue.Job.{Definition}
use distributed_job_queue.Store.Command.{StringKey, scheduler_lock, release_lock}
use distributed_job_queue.Store.Program.{
  Result, ok, err, Program, ret, throw, call, await, try_catch, try_finally,
}
use distributed_job_queue.Store.View.{
  View, find_definition, effect, answer, is_free, set_string, option_eq,
}
use distributed_job_queue.Store.Runs.{caught, play-try_catch}
use distributed_job_queue.Store.Server.{play}
use distributed_job_queue.Scheduler.{CronParser, Config, fire_due, tick}
use distributed_job_queue.Scheduler.Firing.{Turned, idle, firings, copies}
use distributed_job_queue.Scheduler.Turns.{
  loop-Turned, loop-Untouched, loop-copies, Untouched-Turned, Turned-Untouched,
}

-- What a definition has become, and how many of its id there are.
pub record Kept (parser : CronParser) (i now : ℕ) (def : Definition) (v u : View) : Type 0 where
  pub turned : Turned parser i now def v u
  pub copies_same : copies i u.definitions ≡ copies i v.definitions

-- The same log and the same definitions.
abbrev SameBooks : (v u : View) → Type 0
SameBooks v u = (u.events ≡ v.events) × (u.definitions ≡ v.definitions)

play-try_finally :
    {A : Type 0} (m : Program A) (k : StringKey) (o : ℕ) (v : View)
    → (play (try_finally m (await (release_lock k o))) v).1 ≡ effect (release_lock k o) (play m v).1
play-try_finally (ret a) k o v = refl
play-try_finally (throw e) k o v = refl
play-try_finally (call c f) k o v = play-try_finally (f (answer c v)) k o (effect c v)

release-SameBooks :
    (b : Bool) (strings : StringKey → Option ℕ) (v : View)
    → SameBooks v (if b then record v { strings = strings } else v)
release-SameBooks true strings v = (refl, refl)
release-SameBooks false strings v = (refl, refl)

caught_view : (r : Result Unit × View) → (caught (λ _. ret tt) r).1 ≡ r.1
caught_view (ok a, v) = refl
caught_view (err e, v) = refl

copies-keep :
    (i : ℕ) (defs : List Definition) → copies i (keep (λ d. d.enabled) defs) ≤ copies i defs
copies-keep i [] = omega arith
copies-keep i (d ∷ defs) = ground (arith, copies-keep i defs)

find_definition-keep :
    (i : ℕ) (defs : List Definition) (def : Definition)
    → find_definition i defs ≡ some def
    → copies i defs ≤ 1
    → (copies i (keep (λ d. d.enabled) defs) ≡ 0)
      ⊎ (find_definition i (keep (λ d. d.enabled) defs) ≡ some def)
find_definition-keep i [] def e one = cc
find_definition-keep i (d ∷ defs) def e one = elim (Bool-cases (d.id == i)) [
  | inl same ↦ elim (Bool-cases d.enabled) [
    | inl on ↦ inr (ground (arith, e, same, on))
    | inr off ↦ inl (ground (arith, one, same, off, copies-keep i defs))
  ]
  | inr other ↦
      elim (find_definition-keep i defs def (ground (arith, e, other))
        (ground (arith, one, other))) [
          | inl gone ↦ inl (ground (arith, gone, other))
          | inr there ↦ inr (ground (arith, there, other))
        ]
]

module _ (parser : CronParser) (cfg : Config) (draw : ℕ → ℕ) (i now : ℕ) (def : Definition) where
  fire_due-Turned :
      (v : View)
      → find_definition i v.definitions ≡ some def
      → copies i v.definitions ≤ 1
      → Turned parser i now def v (play (fire_due parser cfg draw now) v).1
  unfolding fire_due
  fire_due-Turned v e one =
      let defs = keep (λ (d : Definition). d.enabled) v.definitions in
      elim (find_definition-keep i v.definitions def e one) [
        | inl gone ↦ let (f, s) = loop-Untouched parser cfg draw i now defs v gone in idle f s
        | inr there ↦
            loop-Turned parser cfg draw i now defs def v there
              (omega (arith, copies-keep i v.definitions))
      ]

  fire_due-copies :
      (v : View)
      → copies i (play (fire_due parser cfg draw now) v).1.definitions ≡ copies i v.definitions
  unfolding fire_due
  fire_due-copies v =
      loop-copies parser cfg draw i now (keep (λ (d : Definition). d.enabled) v.definitions) v

  module _ (instance_id : ℕ) where
    -- A tick that has or has not got the lock.
    abbrev tick_by : Bool → View → Result Unit × View
    tick_by b v =
        play
          (if b
            then try_finally (try_catch (fire_due parser cfg draw now) (λ _. ret tt))
                (await (release_lock scheduler_lock instance_id))
            else ret tt)
          (if b
            then record v { strings = set_string scheduler_lock (some instance_id) v.strings }
            else v)

    Kept-tick_by :
        (b : Bool) (v : View)
        → find_definition i v.definitions ≡ some def
        → copies i v.definitions ≤ 1
        → Kept parser i now def v (tick_by b v).1
    Kept-tick_by false v e one = record { turned = idle refl refl; copies_same = refl }
    Kept-tick_by true v e one =
        let locked : View = record v {
          strings = set_string scheduler_lock (some instance_id) v.strings;
        } in
        let fires = fire_due parser cfg draw now in
        let after = (play fires locked).1 in
        let left =
          play-try_finally (try_catch fires (λ _. ret tt)) scheduler_lock instance_id locked
          ∙ ap (effect (release_lock scheduler_lock instance_id)) (
              ap (λ (r : Result Unit × View). r.1) (play-try_catch fires (λ _. ret tt) locked)
              ∙ caught_view (play fires locked)) in
        let books =
          release-SameBooks (option_eq (after.strings scheduler_lock) (some instance_id))
            (set_string scheduler_lock none after.strings) after in
        subst (Kept parser i now def v) (sym left) (record {
          turned =
              Turned-Untouched parser i now def v after _
                (Untouched-Turned parser i now def v locked after (refl, refl)
                  (fire_due-Turned locked e one))
                (ap (firings i) books.0, ap (find_definition i) books.1);
          copies_same = ap (copies i) books.1 ∙ fire_due-copies locked;
        })

    pub tick-Kept :
        (v : View)
        → find_definition i v.definitions ≡ some def
        → copies i v.definitions ≤ 1
        → Kept parser i now def v (play (tick parser cfg instance_id draw now) v).1
    unfolding tick
    tick-Kept v = Kept-tick_by (is_free (v.strings scheduler_lock)) v
