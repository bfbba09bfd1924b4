-- ===== src/Custody/Invariant.antt =====
-- The invariant of custody for one job: it is in at most one place, at most once.
use distributed_job_queue.Base.{
  ℕ, ◌≤◌, ◌≡◌, ◌⊎◌, inl, inr, true, false, Option, some, List, arith, ◌==◌, ==_iff, Bool-cases,
  count,
}
use distributed_job_queue.Store.Command.{ListKey}
use distributed_job_queue.Store.View.{has_member}

-- Nowhere, in a list, in the sorted set of delayed jobs, or in the hand of a thread.
pub data Place : Type 0 where
  nowhere : Place
  in_list : ListKey → Place
  in_delayed : Place
  in_hand : (thread : ℕ) → Place

abbrev pub Lists : Type 0
Lists = ListKey → List ℕ

pub record Held (id : ℕ) (lists : Lists) (set : List (ℕ × ℕ)) (hands : ℕ → Option ℕ) (p : Place)
    : Type 0 where
  pub in_lists :
      (k : ListKey) → (count id (lists k) ≡ 0) ⊎ ((count id (lists k) ≡ 1) × (p ≡ in_list k))
  pub in_set : has_member id set ≡ true → p ≡ in_delayed
  pub in_hands : (i : ℕ) → hands i ≡ some id → p ≡ in_hand i

module _ {id : ℕ} {lists : Lists} {set : List (ℕ × ℕ)} {hands : ℕ → Option ℕ} {p : Place}
    (h : Held id lists set hands p) where
  -- Less of everything leaves the job where it is.
  pub weaken :
      (lists' : Lists) (set' : List (ℕ × ℕ)) (hands' : ℕ → Option ℕ)
      → ((k : ListKey) → count id (lists' k) ≤ count id (lists k))
      → (has_member id set' ≡ true → has_member id set ≡ true)
      → ((i : ℕ) → hands' i ≡ some id → hands i ≡ some id)
      → Held id lists' set' hands' p
  weaken lists' set' hands' fewer less fewer_hands = record {
    in_lists = λ k. lighter k (h.in_lists k);
    in_set = λ m. h.in_set (less m);
    in_hands = λ i e. h.in_hands i (fewer_hands i e);
  }
    where
      lighter :
          (k : ListKey)
          → (count id (lists k) ≡ 0) ⊎ ((count id (lists k) ≡ 1) × (p ≡ in_list k))
          → (count id (lists' k) ≡ 0) ⊎ ((count id (lists' k) ≡ 1) × (p ≡ in_list k))
      lighter k (inl e) = inl (omega (arith, fewer k))
      lighter k (inr (e, f)) = elim (Bool-cases (count id (lists' k) == 0)) [
        | inl z ↦ inl ((==_iff _ _).0 z)
        | inr z ↦ inr (ground (arith, fewer k), f)
      ]

  -- What is in one place is in no other.
  pub no_list : (k : ListKey) → (p ≡ in_list k → ⊥) → count id (lists k) ≡ 0
  no_list k other = elim (h.in_lists k) [ inl e ↦ e | inr (e, f) ↦ absurd (other f) ]

  pub no_set : (p ≡ in_delayed → ⊥) → has_member id set ≡ false
  no_set other = elim (Bool-cases (has_member id set)) [
    | inl e ↦ absurd (other (h.in_set e))
    | inr e ↦ e
  ]

  pub in_list_of_count : (k : ListKey) → 1 ≤ count id (lists k) → p ≡ in_list k
  in_list_of_count k c = elim (h.in_lists k) [ inl e ↦ absurd (omega arith) | inr (e, f) ↦ f ]
