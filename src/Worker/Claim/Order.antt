-- ===== src/Worker/Claim/Order.antt =====
-- Which job claimNextJob takes.
use distributed_job_queue.Base.{
  ℕ, ◌≡◌, refl, ◌∙◌, Option, none, some, List, [], ◌∷◌, arith, ap, sym,
}
use distributed_job_queue.Job.{Priority, high, normal, low}
use distributed_job_queue.Store.Command.{queue, processing}
use distributed_job_queue.Store.Program.{Result, ok, Program, ◌>>=◌}
use distributed_job_queue.Store.View.{View, moved, moved_by, popped, set_at, pop_right}
use distributed_job_queue.Store.Server.{Server, IsReliable, Agrees, run, play, run-eq}
use distributed_job_queue.Worker.Claim.{Claimed, move_job, start_claim, claim_from, claim_next_job}

-- The oldest job of a queue: producers push at the left, so it stands at the right end.
abbrev pub oldest : List ℕ → Option ℕ
oldest [] = none
oldest (x ∷ xs) = elim (oldest xs) [ none ↦ some x | some y ↦ some y ]

abbrev pub or_else : Option ℕ → Priority → Option (Priority × ℕ) → Option (Priority × ℕ)
or_else none p rest = rest
or_else (some i) p rest = some (p, i)

-- The oldest job of the first queue in the order of priorities that is not empty.
abbrev pub first_in_line : View → Option (Priority × ℕ)
first_in_line v = or_else (oldest (v.lists (queue high))) high (
    or_else (oldest (v.lists (queue normal))) normal
      (or_else (oldest (v.lists (queue low))) low none))

-- What a claim should return and leave: the job in the worker's list, with a heartbeat.
abbrev pub after_claim :
    (worker now : ℕ) → View → Option (Priority × ℕ) → Result (Option Claimed) × View
after_claim worker now v none = (ok none, v)
after_claim worker now v (some (p, i)) = (
  ok (some (record { id = i; priority = p; envelope = v.envelopes i })),
  record (moved (queue p) (processing worker) v) { beats = set_at i (some now) v.beats },
)

pub oldest-pop_right : (xs : List ℕ) → oldest xs ≡ popped (pop_right xs)
oldest-pop_right [] = refl
oldest-pop_right (x ∷ xs) = ground (arith, oldest-pop_right xs)

play-move_job :
    (worker seconds : ℕ) (p : Priority) (f : Option ℕ → Program (Option Claimed)) (v : View)
    → play (move_job worker seconds p >>= f) v
      ≡ play (f (popped (pop_right (v.lists (queue p))))) (moved (queue p) (processing worker) v)
unfolding move_job
play-move_job worker seconds high f v = refl
play-move_job worker seconds normal f v = refl
play-move_job worker seconds low f v = refl

module _ (worker now seconds : ℕ) (v : View) where
  abbrev Claims : List Priority → Option (Priority × ℕ) → Type 0
  Claims ps found = play (claim_from worker now seconds ps) v ≡ after_claim worker now v found

  -- One turn of the loop: from what stands at the right end of the queue.
  claim-cons :
      (p : Priority) (ps : List Priority) (rest : Option (Priority × ℕ))
      → Claims ps rest
      → Claims (p ∷ ps) (or_else (oldest (v.lists (queue p))) p rest)
  unfolding claim_from
  claim-cons p ps rest c =
      play-move_job worker seconds p _ v
      ∙ rw oldest-pop_right (turn (pop_right (v.lists (queue p))) refl)
    where
      turn :
          (o : Option (List ℕ × ℕ))
          → pop_right (v.lists (queue p)) ≡ o
          → play
              (elim (popped o) [
                | none ↦ claim_from worker now seconds ps
                | some i ↦ start_claim now p i
              ])
              (moved_by (queue p) (processing worker) v o)
            ≡ after_claim worker now v (or_else (popped o) p rest)
      turn none e = c
      turn (some (init, last)) e =
          ap
            (λ o. (
              ok (some (record { id = last; priority = p; envelope = v.envelopes last })),
              record (moved_by (queue p) (processing worker) v o) {
                beats = set_at last (some now) v.beats;
              },
            ))
            (sym e)

pub play-claim_next_job :
    (worker now seconds : ℕ) (v : View)
    → play (claim_next_job worker now seconds) v ≡ after_claim worker now v (first_in_line v)
unfolding claim_next_job claim_from
play-claim_next_job worker now seconds v =
    let cons = claim-cons worker now seconds v in
    cons high (normal ∷ low ∷ []) _ (cons normal (low ∷ []) _ (cons low [] none refl))

-- Against reliable services a claim takes the oldest job of the first of the queues high, normal and
-- low that is not empty, moves it to the worker's processing list, writes its heartbeat, and returns
-- its envelope; where all three are empty it returns null and changes nothing.
pub claim_next_job-first_in_line :
    (srv : Server) (h : IsReliable srv) (worker now seconds : ℕ) (w : srv.World)
    → Agrees srv h
        (run srv (claim_next_job worker now seconds) w)
        (after_claim worker now (srv.view w) (first_in_line (srv.view w)))
claim_next_job-first_in_line srv h worker now seconds w =
    run-eq srv h (claim_next_job worker now seconds) w
      (play-claim_next_job worker now seconds (srv.view w))
