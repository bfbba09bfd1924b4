-- ===== src/Custody/Fewer.antt =====
-- Lists that hold a job less often, and hands that drop it.
use native.Mathlib.Nat.{le_refl}
use distributed_job_queue.Base.{
  ℕ, ◌≤◌, ◌≡◌, sym, subst, inl, inr, false, Option, some, List, arith, ◌==◌, ==_iff, Bool-cases,
  count,
}
use distributed_job_queue.Store.Command.{ListKey}
use distributed_job_queue.Store.View.{set_list, set_at, list_eq}
use distributed_job_queue.Custody.Lists.{list_eq→eq}
use distributed_job_queue.Custody.Invariant.{Lists}

-- To split on whether a number is the one at hand.
pub on_same : (P : ℕ → Type 0) (j id : ℕ) → P id → ((j == id) ≡ false → P j) → P j
on_same P j id same other = elim (Bool-cases (j == id)) [
  | inl t ↦ subst P (sym ((==_iff j id).0 t)) same
  | inr f ↦ other f
]

abbrev pub Fewer : ℕ → Lists → Lists → Type 0
Fewer id lists' lists = (k : ListKey) → count id (lists' k) ≤ count id (lists k)

pub set_list-Fewer :
    (id : ℕ) (lists : Lists) (k : ListKey) (xs : List ℕ)
    → count id xs ≤ count id (lists k)
    → Fewer id (set_list k xs lists) lists
set_list-Fewer id lists k xs h j = elim (Bool-cases (list_eq j k)) [
  | inl e ↦ rw (e, list_eq→eq j k e) h
  | inr e ↦ rw e (le_refl _)
]

-- An empty hand, or one with another job, does not hold this one.
pub dropped :
    {id : ℕ} (hands : ℕ → Option ℕ) (i j : ℕ) (x : Option ℕ)
    → (x ≡ some id → ⊥)
    → set_at i x hands j ≡ some id
    → hands j ≡ some id
dropped hands i j x n e = elim (Bool-cases (j == i)) [
  | inl t ↦ absurd (n (ground arith))
  | inr f ↦ ground arith
]
