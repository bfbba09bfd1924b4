-- ===== src/Custody/Steps.antt =====
-- Every command that the protocol permits keeps custody of every job, however it ends.
use native.Mathlib.Nat.{le_refl, le_trans}
use distributed_job_queue.Base.{
  ℕ, zero, suc, ◌≡◌, refl, inl, inr, Bool, true, false, Option, none, some, List, ◌∷◌, arith, ◌==◌,
  Option-cases, count,
}
use distributed_job_queue.Store.Command.{
  ListKey, Command, Reply, lpush, lmove, blmove, lrem, zadd, zrem, hset, hdel, job_data, heartbeats,
}
use distributed_job_queue.Job.{Error}
use distributed_job_queue.Store.System.{Documents, done, refused, lost}
use distributed_job_queue.Store.Program.{Result, ok, err}
use distributed_job_queue.Store.View.{
  View, answer, effect, moved, set_list, set_at, without, pop_right, has_member, unscheduled,
  schedule,
}
use distributed_job_queue.Custody.Lists.{
  count-without, count-pop_right, has_member-unscheduled, has_member-schedule,
}
use distributed_job_queue.Custody.Protocol.{next_hand, Permits}
use distributed_job_queue.Custody.Invariant.{
  Place, in_list, in_delayed, in_hand, Lists, Held, weaken,
}
use distributed_job_queue.Custody.Moves.{
  push-Held, add-Held, take-Held, cut-Held, move-Held, hands_same,
}
use distributed_job_queue.Custody.Fewer.{on_same, set_list-Fewer, dropped}

abbrev pub HeldIn : ℕ → View → (ℕ → Option ℕ) → Place → Type 0
HeldIn id v hands p = Held id v.lists v.delayed_set hands p

module _ (id : ℕ) (v : View) (hands : ℕ → Option ℕ) (p : Place) (h : HeldIn id v hands p)
    (i : ℕ) where
  -- Custody with the hand `x` after the command `c`.
  abbrev After : Command → Option ℕ → Type 0
  After c x = (q : Place) × HeldIn id (effect c v) (set_at i x hands) q

  push_kept : (k : ListKey) (j : ℕ) → hands i ≡ some j → After (lpush k j) none
  push_kept k j =
      on_same (λ a. hands i ≡ some a → After (lpush k a) none) j id
        (λ mine. (in_list k, push-Held h i k mine))
        (λ f mine. (
          p,
          weaken h (set_list k (j ∷ v.lists k) v.lists) v.delayed_set (set_at i none hands)
              (set_list-Fewer id v.lists k (j ∷ v.lists k) (rw f (omega arith))) (λ m. m)
              (λ l. dropped hands i l none (λ q. cc)),
        ))

  add_kept : (score j : ℕ) → hands i ≡ some j → After (zadd score j) none
  add_kept score j =
      on_same (λ a. hands i ≡ some a → After (zadd score a) none) j id
        (λ mine. (in_delayed, add-Held h i score mine))
        (λ f mine. (
          p,
          weaken h v.lists (schedule score j (unscheduled j v.delayed_set)) (set_at i none hands)
              (λ k. le_refl _)
              (λ m. ground (
                arith,
                m,
                f,
                has_member-schedule id score j (unscheduled j v.delayed_set),
                has_member-unscheduled id j v.delayed_set,
              ))
              (λ l. dropped hands i l none (λ q. cc)),
        ))

  abbrev NotGained : Option ℕ → Type 0
  NotGained x = (l : ℕ) → set_at i x hands l ≡ some id → hands l ≡ some id

  kept_hand : NotGained (hands i)
  kept_hand l = hands_same hands i l

  other_hand : (j : ℕ) → (j == id) ≡ false → NotGained (some j)
  other_hand j f l = dropped hands i l (some j) (λ q. ground (arith, f))

  unscheduled_kept : (j : ℕ) (x : Option ℕ) → NotGained x → After (zrem j) x
  unscheduled_kept j x n = (
    p,
    weaken h v.lists (unscheduled j v.delayed_set) (set_at i x hands) (λ k. le_refl _)
        (λ m. ground (arith, m, has_member-unscheduled id j v.delayed_set)) n,
  )

  removed_kept : (k : ListKey) (j : ℕ) (x : Option ℕ) → NotGained x → After (lrem k j) x
  removed_kept k j x n = (
    p,
    weaken h (set_list k (without j (v.lists k)) v.lists) v.delayed_set (set_at i x hands)
        (set_list-Fewer id v.lists k (without j (v.lists k))
          (ground (arith, count-without id j (v.lists k))))
        (λ m. m) n,
  )

  take_kept :
      (j : ℕ) (b : Bool)
      → has_member j v.delayed_set ≡ b
      → After (zrem j) (next_hand (hands i) (zrem j) (ok b))
  take_kept j false e = unscheduled_kept j (hands i) kept_hand
  take_kept j true e =
      on_same (λ a. has_member a v.delayed_set ≡ true → After (zrem a) (some a)) j id
        (λ member. (in_hand i, take-Held h i member))
        (λ f member. unscheduled_kept j (some j) (other_hand j f)) e

  cut_kept :
      (k : ListKey) (j n : ℕ)
      → count j (v.lists k) ≡ n
      → After (lrem k j) (next_hand (hands i) (lrem k j) (ok n))
  cut_kept k j zero e = removed_kept k j (hands i) kept_hand
  cut_kept k j (suc n) e =
      on_same (λ a. count a (v.lists k) ≡ suc n → After (lrem k a) (some a)) j id
        (λ found. (in_hand i, cut-Held h i k (omega arith)))
        (λ f found. removed_kept k j (some j) (other_hand j f)) e

  -- The lists after an LMOVE that found `last` at the right end of the source.
  abbrev relisted : (s t : ListKey) (init : List ℕ) (last : ℕ) → Lists
  relisted s t init last = let left = set_list s init v.lists in set_list t (last ∷ left t) left

  relisted-Held :
      (s t : ListKey) (init : List ℕ) (last : ℕ)
      → pop_right (v.lists s) ≡ some (init, last)
      → (q : Place) × Held id (relisted s t init last) v.delayed_set (set_at i (hands i) hands) q
  relisted-Held s t init last =
      on_same
        (λ a.
          pop_right (v.lists s) ≡ some (init, a)
          → (q : Place) × Held id (relisted s t init a) v.delayed_set (set_at i (hands i) hands) q)
        last id
        (λ e. (
          in_list t,
          weaken (move-Held h s t init e) (relisted s t init id) v.delayed_set
              (set_at i (hands i) hands) (λ k. le_refl _) (λ m. m) kept_hand,
        ))
        (λ f e. (
          p,
          weaken h (relisted s t init last) v.delayed_set (set_at i (hands i) hands)
              (λ k.
                le_trans
                  (set_list-Fewer id (set_list s init v.lists) t (last ∷ set_list s init v.lists t)
                    (rw f (omega arith)) k)
                  (set_list-Fewer id v.lists s init
                    (omega (arith, count-pop_right id last (v.lists s) init e)) k))
              (λ m. m) kept_hand,
        ))

  move_kept : (s t : ListKey) → (q : Place) × HeldIn id (moved s t v) (set_at i (hands i) hands) q
  move_kept s t = elim (Option-cases (pop_right (v.lists s))) [
    | inl e ↦
        rw (e, moved)
          (
            p,
            weaken h v.lists v.delayed_set (set_at i (hands i) hands) (λ k. le_refl _) (λ m. m)
                kept_hand,
          )
    | inr ((init, last), e) ↦ rw (e, moved) (relisted-Held s t init last e)
  ]

  quiet_kept :
      (w : View)
      → w.lists ≡ v.lists
      → w.delayed_set ≡ v.delayed_set
      → (q : Place) × HeldIn id w (set_at i (hands i) hands) q
  quiet_kept w e f = (
    p,
    weaken h w.lists w.delayed_set (set_at i (hands i) hands) (λ k. rw e (le_refl _))
        (λ m. rw f at m) kept_hand,
  )

  done_kept : (c : Command) → Permits (hands i) c → After c (next_hand (hands i) c (answer c v))
  done_kept (lpush k j) m = push_kept k j m
  done_kept (zadd s j) m = add_kept s j m
  done_kept (zrem j) m = take_kept j _ refl
  done_kept (lrem k j) m = cut_kept k j _ refl
  done_kept (lmove s t) m = move_kept s t
  done_kept (blmove s t n) m = move_kept s t
  done_kept (hset job_data f x) m = quiet_kept (effect (hset job_data f x) v) refl refl
  done_kept (hset heartbeats f x) m = quiet_kept (effect (hset heartbeats f x) v) refl refl
  done_kept (hdel job_data f) m = quiet_kept (effect (hdel job_data f) v) refl refl
  done_kept (hdel heartbeats f) m = quiet_kept (effect (hdel heartbeats f) v) refl refl
  done_kept c m = quiet_kept (effect c v) (ground arith) (ground arith)

  lost_kept :
      (c : Command) (e : Error) → Permits (hands i) c → After c (next_hand (hands i) c (err e))
  lost_kept (lpush k j) e m = push_kept k j m
  lost_kept (zadd s j) e m = add_kept s j m
  lost_kept (zrem j) e m = unscheduled_kept j (hands i) kept_hand
  lost_kept (lrem k j) e m = removed_kept k j (hands i) kept_hand
  lost_kept (lmove s t) e m = move_kept s t
  lost_kept (blmove s t n) e m = move_kept s t
  lost_kept (hset job_data f x) e m = quiet_kept (effect (hset job_data f x) v) refl refl
  lost_kept (hset heartbeats f x) e m = quiet_kept (effect (hset heartbeats f x) v) refl refl
  lost_kept (hdel job_data f) e m = quiet_kept (effect (hdel job_data f) v) refl refl
  lost_kept (hdel heartbeats f) e m = quiet_kept (effect (hdel heartbeats f) v) refl refl
  lost_kept c e m = quiet_kept (effect c v) (ground arith) (ground arith)

  emptied : (q : Place) × HeldIn id v (set_at i none hands) q
  emptied = (
    p,
    weaken h v.lists v.delayed_set (set_at i none hands) (λ k. le_refl _) (λ m. m)
        (λ l. dropped hands i l none (λ q. cc)),
  )

  refused_kept :
      (c : Command) (e : Error)
      → (q : Place) × HeldIn id v (set_at i (next_hand (hands i) c (err e)) hands) q
  refused_kept (lpush k j) e = emptied
  refused_kept (zadd s j) e = emptied
  refused_kept c e = quiet_kept v refl refl

  -- Whatever comes of a permitted command, the job is then in one place at most.
  pub command_kept :
      (c : Command) (r : Result (Reply c)) (w : View)
      → Documents c v r w
      → Permits (hands i) c
      → (q : Place) × HeldIn id w (set_at i (next_hand (hands i) c r) hands) q
  command_kept c r w done m = done_kept c m
  command_kept c r w (refused e) m = refused_kept c e
  command_kept c r w (lost e) m = lost_kept c e m
