-- ===== src/Custody/Moves.antt =====
-- Each command that brings the job to a new place, by what the job's custody was before.
use distributed_job_queue.Base.{
  ℕ, ◌+◌, ◌≤◌, ◌≡◌, refl, sym, ap, ◌⊎◌, inl, inr, true, Option, none, some, List, ◌∷◌, arith, ◌==◌,
  ==_iff, ==_refl, Bool-cases, count,
}
use distributed_job_queue.Store.Command.{ListKey}
use distributed_job_queue.Store.View.{
  list_eq, set_list, set_at, has_member, without, pop_right, unscheduled, schedule,
}
use distributed_job_queue.Custody.Lists.{
  list_eq→eq, list_eq_refl, count-without, count-pop_right, has_member-unscheduled,
}
use distributed_job_queue.Custody.Invariant.{
  Place, in_list, in_delayed, in_hand, Lists, Held, no_list, no_set, in_list_of_count,
}

-- Other hands than the one that changed.
hands_other :
    {id : ℕ} (hands : ℕ → Option ℕ) (i j : ℕ) (x : Option ℕ)
    → (x ≡ some id → ⊥)
    → set_at i x hands j ≡ some id
    → ((j ≡ i) → ⊥) × (hands j ≡ some id)
hands_other hands i j x n e = elim (Bool-cases (j == i)) [
  | inl t ↦ absurd (n (ground arith))
  | inr f ↦ (λ q. ground arith, ground arith)
]

-- A hand that is written back as it was.
pub hands_same :
    {id : ℕ} (hands : ℕ → Option ℕ) (i j : ℕ)
    → set_at i (hands i) hands j ≡ some id
    → hands j ≡ some id
hands_same hands i j e = elim (Bool-cases (j == i)) [
  | inl t ↦ rw ((==_iff j i).0 t) (ground (arith, t))
  | inr f ↦ ground arith
]

-- A job that is in no list is put at the left end of one.
placed :
    (id : ℕ) (left : Lists) (k : ListKey)
    → ((j : ListKey) → count id (left j) ≡ 0)
    → (j : ListKey)
    → (count id (set_list k (id ∷ left k) left j) ≡ 0)
      ⊎ ((count id (set_list k (id ∷ left k) left j) ≡ 1) × (in_list k ≡ in_list j))
placed id left k none_left j = elim (Bool-cases (list_eq j k)) [
  | inl e ↦
      inr (rw (e, ==_refl id) (omega (arith, none_left k)), ap in_list (sym (list_eq→eq j k e)))
  | inr e ↦ inl (rw e (none_left j))
]

module _ {id : ℕ} {lists : Lists} {set : List (ℕ × ℕ)} {hands : ℕ → Option ℕ} {p : Place}
    (h : Held id lists set hands p) where
  -- A job in a hand is in no list, not delayed, and in no other hand.
  pub push-Held :
      (i : ℕ) (k : ListKey)
      → hands i ≡ some id
      → Held id (set_list k (id ∷ lists k) lists) set (set_at i none hands) (in_list k)
  push-Held i k mine = record {
    in_lists = placed id lists k (λ j. no_list h j (λ q. cc held));
    in_set = λ m. cc (no_set h (λ e. cc held));
    in_hands = λ j e.
        let (other, his) = hands_other hands i j none (λ q. cc) e in
        absurd (other (ground (arith, held, h.in_hands j his)));
  }
    where
      held : p ≡ in_hand i
      held = h.in_hands i mine

  pub add-Held :
      (i score : ℕ)
      → hands i ≡ some id
      → Held id lists (schedule score id (unscheduled id set)) (set_at i none hands) in_delayed
  add-Held i score mine = record {
    in_lists = λ j. inl (no_list h j (λ q. cc held));
    in_set = λ m. refl;
    in_hands = λ j e.
        let (other, his) = hands_other hands i j none (λ q. cc) e in
        absurd (other (ground (arith, held, h.in_hands j his)));
  }
    where
      held : p ≡ in_hand i
      held = h.in_hands i mine

  -- The job comes into the hand of `i`, out of the place that it was in.
  taken :
      (i j : ℕ) (away : (k : ℕ) → p ≡ in_hand k → ⊥)
      → set_at i (some id) hands j ≡ some id
      → in_hand i ≡ in_hand j
  taken i j away e = elim (Bool-cases (j == i)) [
    | inl t ↦ ap in_hand (sym ((==_iff j i).0 t))
    | inr f ↦ absurd (away j (h.in_hands j (ground arith)))
  ]

  pub take-Held :
      (i : ℕ)
      → has_member id set ≡ true
      → Held id lists (unscheduled id set) (set_at i (some id) hands) (in_hand i)
  take-Held i member = record {
    in_lists = λ j. inl (no_list h j (λ q. cc was));
    in_set = λ m. ground (arith, m, has_member-unscheduled id id set);
    in_hands = λ j e. taken i j (λ k q. cc was) e;
  }
    where
      was : p ≡ in_delayed
      was = h.in_set member

  pub cut-Held :
      (i : ℕ) (k : ListKey)
      → 1 ≤ count id (lists k)
      → Held id (set_list k (without id (lists k)) lists) set (set_at i (some id) hands) (in_hand i)
  cut-Held i k found = record {
    in_lists = λ j. inl (gone j);
    in_set = λ m. cc (no_set h (λ e. cc was));
    in_hands = λ j e. taken i j (λ l q. cc was) e;
  }
    where
      was : p ≡ in_list k
      was = in_list_of_count h k found

      gone : (j : ListKey) → count id (set_list k (without id (lists k)) lists j) ≡ 0
      gone j = elim (Bool-cases (list_eq j k)) [
        | inl e ↦ rw e (ground (arith, count-without id id (lists k)))
        | inr e ↦ rw e (no_list h j (λ q. cc (was, list_eq_refl j, e)))
      ]

  pub move-Held :
      (s t : ListKey) (init : List ℕ)
      → pop_right (lists s) ≡ some (init, id)
      → let left = set_list s init lists in
        Held id (set_list t (id ∷ left t) left) set hands (in_list t)
  move-Held s t init e = record {
    in_lists = placed id (set_list s init lists) t gone;
    in_set = λ m. cc (no_set h (λ q. cc was));
    in_hands = λ j f. cc (h.in_hands j f, was);
  }
    where
      found : count id (lists s) ≡ count id init + 1
      found = ground (arith, count-pop_right id id (lists s) init e)

      was : p ≡ in_list s
      was = in_list_of_count h s (omega (arith, found))

      gone : (j : ListKey) → count id (set_list s init lists j) ≡ 0
      gone j = elim (Bool-cases (list_eq j s)) [
        | inl q ↦ rw q (elim (h.in_lists s) [
          | inl z ↦ omega (arith, found)
          | inr (z, _) ↦ omega (arith, found)
        ])
        | inr q ↦ rw q (no_list h j (λ r. cc (was, list_eq_refl j, q)))
      ]
