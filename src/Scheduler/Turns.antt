-- ===== src/Scheduler/Turns.antt =====
-- One tick of packages/scheduler/src/index.js, as a definition sees it.
use distributed_job_queue.Base.{
  ℕ, ◌+◌, ◌≤◌, ◌≡◌, refl, sym, ap, ◌∙◌, subst, false, some, List, [], ◌∷◌, arith, ◌==◌, Bool-cases,
  inl, inr,
}
use mathlib.Core.Option
use distributed_job_queue.Job.{Definition}
use distributed_job_queue.Store.Program.{Result, ok, err, Program, for_each}
use distributed_job_queue.Store.View.{View, find_definition}
use distributed_job_queue.Store.Runs.{continued, play->>=}
use distributed_job_queue.Store.Server.{play}
use distributed_job_queue.Scheduler.{CronParser, Config, fire_if_due}
use distributed_job_queue.Scheduler.Firing.{
  Turned, idle, fired, firings, stamped, copies, fire_if_due-Turned, fire_if_due-copies,
}

module _ {A B : Type 0} (P : View → Type 0) (f : A → Program B) where
  after_either :
      (r : Result A × View) → ((a : A) → P (play (f a) r.1).1) → P r.1 → P (continued f r).1
  after_either (ok a, v) more stop = more a
  after_either (err e, v) more stop = stop

abbrev pub Untouched : (i : ℕ) (v u : View) → Type 0
Untouched i v u =
    (firings i u.events ≡ firings i v.events)
    × (find_definition i u.definitions ≡ find_definition i v.definitions)

module _ (parser : CronParser) (i now : ℕ) (def : Definition) where
  pub Untouched-Turned :
      (v u x : View) → Untouched i v u → Turned parser i now def u x → Turned parser i now def v x
  Untouched-Turned v u x h (idle f d) = idle (f ∙ h.0) (d ∙ h.1)
  Untouched-Turned v u x h (fired e due f d) =
      fired e due (f ∙ ap (λ n. n + 1) h.0) (d ∙ ap (Option.map (stamped now)) h.1)

  pub Turned-Untouched :
      (v u x : View) → Turned parser i now def v u → Untouched i u x → Turned parser i now def v x
  Turned-Untouched v u x (idle f d) h = idle (h.0 ∙ f) (h.1 ∙ d)
  Turned-Untouched v u x (fired e due f d) h = fired e due (h.0 ∙ f) (h.1 ∙ d)

module _ (parser : CronParser) (cfg : Config) (draw : ℕ → ℕ) (i now : ℕ) where
  abbrev pub loop : List Definition → Program Unit
  loop defs = for_each defs tt (λ d _. fire_if_due parser cfg draw now d)

  -- What holds after the first definition and is kept by the rest holds after the loop.
  loop_after :
      (P : View → Type 0) (d : Definition) (defs : List Definition) (v : View)
      → let u = (play (fire_if_due parser cfg draw now d) v).1 in
        P (play (loop defs) u).1 → P u → P (play (loop (d ∷ defs)) v).1
  loop_after P d defs v more stop =
      let one = fire_if_due parser cfg draw now d in
      subst (λ (r : Result Unit × View). P r.1) (sym (play->>= one (λ _. loop defs) v))
        (after_either P (λ _. loop defs) (play one v) (λ a. more) stop)

  other-Untouched :
      (d : Definition) (v : View)
      → (d.id == i) ≡ false
      → Untouched i v (play (fire_if_due parser cfg draw now d) v).1
  other-Untouched d v e = elim (fire_if_due-Turned parser cfg i now v draw d) [
    | idle f s ↦ (f, s)
    | fired same due f s ↦ ground (arith, e, same)
  ]

  -- A list without the definition leaves it alone.
  pub loop-Untouched :
      (defs : List Definition) (v : View) → copies i defs ≡ 0 → Untouched i v (play (loop defs) v).1
  loop-Untouched [] v e = (refl, refl)
  loop-Untouched (d ∷ defs) v e =
      let here = other-Untouched d v (ground (arith, e)) in
      let (f, s) =
        loop-Untouched defs (play (fire_if_due parser cfg draw now d) v).1 (ground (arith, e)) in
      loop_after (Untouched i v) d defs v (f ∙ here.0, s ∙ here.1) here

  pub loop-Turned :
      (defs : List Definition) (def : Definition) (v : View)
      → find_definition i defs ≡ some def
      → copies i defs ≤ 1
      → Turned parser i now def v (play (loop defs) v).1
  loop-Turned [] def v e one = cc
  loop-Turned (d ∷ defs) def v e one =
      let u = (play (fire_if_due parser cfg draw now d) v).1 in
      elim (Bool-cases (d.id == i)) [
        | inl same ↦
            let it : d ≡ def = ground (arith, e, same) in
            let here : Turned parser i now def v u =
              subst (λ x. Turned parser i now x v u) it
                (fire_if_due-Turned parser cfg i now v draw d) in
            loop_after (Turned parser i now def v) d defs v
              (Turned-Untouched parser i now def v u _ here
                (loop-Untouched defs u (ground (arith, one, same))))
              here
        | inr other ↦
            let here = other-Untouched d v other in
            loop_after (Turned parser i now def v) d defs v
              (Untouched-Turned parser i now def v u _ here
                (loop-Turned defs def u (ground (arith, e, other)) (ground (arith, one, other))))
              (idle here.0 here.1)
      ]

  pub loop-copies :
      (defs : List Definition) (v : View)
      → copies i (play (loop defs) v).1.definitions ≡ copies i v.definitions
  loop-copies [] v = refl
  loop-copies (d ∷ defs) v =
      let here = fire_if_due-copies parser cfg i now v draw d in
      loop_after (λ u. copies i u.definitions ≡ copies i v.definitions) d defs v
        (loop-copies defs (play (fire_if_due parser cfg draw now d) v).1 ∙ here) here
