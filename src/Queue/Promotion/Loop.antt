-- ===== src/Queue/Promotion/Loop.antt =====
-- The loop of promoteDueDelayedJobs in packages/server/src/lib/queue.js, over the jobs that are due.
use distributed_job_queue.Base.{
  ℕ, ◌+◌, ◌≤◌, ◌≡◌, refl, subst, ◌∙◌, ap, Bool, true, false, Option, none, some, List, [], ◌∷◌,
  arith, count, ◌==◌, ==_iff, if◌then◌else◌, Bool-cases, inl, inr,
}
use distributed_job_queue.Job.{Row, Envelope}
use distributed_job_queue.Queue.Promotion.Line.{
  dropped, Promoting, absent, dataless, pushes, Untouched, IsPromoted, in_queues, Promoting-other,
  Promoting-gone, Promoting-pushed, Promoting-counts, Promoting-set, Untouched-trans,
  Untouched-IsPromoted, IsPromoted-Untouched, Promoting-left,
}
use distributed_job_queue.Store.Command.{zrem, hget, job_data}
use distributed_job_queue.Store.Program.{Result, ok, Program, ret, await, ◌>>=◌, for_each}
use distributed_job_queue.Store.View.{View, effect, unscheduled, has_member, find_row}
use distributed_job_queue.Store.Server.{play}
use distributed_job_queue.Store.Runs.{continued, play->>=}
use distributed_job_queue.Queue.{promote_one, push_promoted}

abbrev pub unscheduled_all : List ℕ → List (ℕ × ℕ) → List (ℕ × ℕ)
unscheduled_all [] set = set
unscheduled_all (id ∷ ids) set = unscheduled_all ids (unscheduled id set)

-- The turn of one job ends with the number so far and its own.
record OneTurn (id n : ℕ) (v : View) (r : Result ℕ × View) : Type 0 where
  gained : ℕ
  after : View
  ends : r ≡ (ok (n + gained), after)
  turn : Promoting id v after gained

abbrev result : ℕ → View → Result ℕ × View
result n u = (ok n, u)

plus_none : (n : ℕ) {u : View} → result n u ≡ result (n + 0) u
plus_none n {u} = ap (λ m. result m u) (omega arith)

module _ (id n : ℕ) (v : View) (was : has_member id v.delayed_set ≡ true) where
  abbrev rest_of : Option Envelope → Program ℕ
  rest_of raw = elim raw [ none ↦ ret n | some envelope ↦ push_promoted id envelope n ]

  pushed-OneTurn :
      (raw : Option Envelope)
      → v.envelopes id ≡ raw
      → OneTurn id n v (play (rest_of raw) (dropped id v))
  unfolding push_promoted
  pushed-OneTurn none e = record {
    gained = 0;
    after = _;
    ends = plus_none n;
    turn = dataless was e;
  }
  pushed-OneTurn (some envelope) e = record {
    gained = 1;
    after = _;
    ends = refl;
    turn = pushes was e;
  }

promote_one-OneTurn : (id n : ℕ) (v : View) → OneTurn id n v (play (promote_one id n) v)
unfolding promote_one
promote_one-OneTurn id n v = by_answer (has_member id v.delayed_set) refl
  where
    by_answer :
        (b : Bool)
        → has_member id v.delayed_set ≡ b
        → OneTurn id n v (
            play
              (if b
                then (await (hget job_data id)
                    >>= elim [ none ↦ ret n | some envelope ↦ push_promoted id envelope n ])
                else ret n)
              (effect (zrem id) v))
    by_answer true was = pushed-OneTurn id n v was (v.envelopes id) refl
    by_answer false was = record { gained = 0; after = _; ends = plus_none n; turn = absent was }

-- What the loop leaves: a number, and for each job that it has met a promotion, if the job was in the
-- delayed set and has data and a row.
pub record Leaves (ids : List ℕ) (n : ℕ) (v : View) (r : Result ℕ × View) : Type 0 where
  pub total : ℕ
  pub after : View
  pub ends : r ≡ (ok total, after)
  pub set_then : after.delayed_set ≡ unscheduled_all ids v.delayed_set
  pub counted : in_queues after + n ≡ in_queues v + total
  pub left : (a : ℕ) → 1 ≤ count a ids → has_member a after.delayed_set ≡ false
  pub gone : (a : ℕ) → has_member a v.delayed_set ≡ false → Untouched a v after
  pub done :
      (a : ℕ) (e : Envelope) (row : Row)
      → 1 ≤ count a ids
      → has_member a v.delayed_set ≡ true
      → v.envelopes a ≡ some e
      → find_row a v.jobs ≡ some row
      → IsPromoted a e row v after

pub for_each-Leaves :
    (ids : List ℕ) (n : ℕ) (v : View) → Leaves ids n v (play (for_each ids n promote_one) v)
for_each-Leaves [] n v = record {
  total = n;
  after = v;
  ends = refl;
  set_then = refl;
  counted = refl;
  left = λ a some_id. absurd (omega arith);
  gone = λ a _. record { member = refl; row = refl; listed = λ k. refl; data_of = refl };
  done = λ a e row some_id _ _ _. absurd (omega arith);
}
for_each-Leaves (id ∷ ids) n v =
    let one = promote_one-OneTurn id n v in
    let others = for_each-Leaves ids (n + one.gained) one.after in
    let untouched : (a : ℕ) → (id == a) ≡ false → Untouched a v one.after =
      λ a differs. Promoting-other a id differs one.turn in
    record {
      total = others.total;
      after = others.after;
      ends =
          play->>= (promote_one id n) (λ m. for_each ids m promote_one) v
          ∙ ap (continued (λ m. for_each ids m promote_one)) one.ends
          ∙ others.ends;
      set_then = others.set_then ∙ ap (unscheduled_all ids) (Promoting-set id one.turn);
      counted = omega (arith, others.counted, Promoting-counts id one.turn);
      left = λ a met. elim (Bool-cases (id == a)) [
        | inl e ↦
            let gone_now : has_member a one.after.delayed_set ≡ false =
              subst (λ b. has_member b one.after.delayed_set ≡ false) ((==_iff id a).0 e)
                (Promoting-left id one.turn) in
            (others.gone a gone_now).member ∙ gone_now
        | inr e ↦ others.left a (ground (arith, met, e))
      ];
      gone = λ a was_not. elim (Bool-cases (id == a)) [
        | inl e ↦
            let u : Untouched a v one.after =
              subst (λ b. has_member b v.delayed_set ≡ false → Untouched b v one.after)
                ((==_iff id a).0 e) (λ m. Promoting-gone id m one.turn) was_not in
            Untouched-trans a u (others.gone a (u.member ∙ was_not))
        | inr e ↦ let u = untouched a e in Untouched-trans a u (others.gone a (u.member ∙ was_not))
      ];
      done = λ a e row met was has_data found. elim (Bool-cases (id == a)) [
        | inl same ↦
            let p : IsPromoted a e row v one.after =
              subst
                (λ b.
                  has_member b v.delayed_set ≡ true
                  → v.envelopes b ≡ some e
                  → find_row b v.jobs ≡ some row
                  → IsPromoted b e row v one.after)
                ((==_iff id a).0 same) (λ m d f. Promoting-pushed id e row m d f one.turn) was
                has_data found in
            IsPromoted-Untouched a e row p (others.gone a p.member)
        | inr differs ↦
            let u = untouched a differs in
            Untouched-IsPromoted a e row u (
              others.done a e row (ground (arith, met, differs)) (u.member ∙ was)
                (u.data_of ∙ has_data) (u.row ∙ found))
      ];
    }
