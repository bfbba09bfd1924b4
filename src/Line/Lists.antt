-- ===== src/Line/Lists.antt =====
-- Redis lists, which are pushed at the left and popped at the right, read from the right.
use distributed_job_queue.Base.{ℕ, ◌≡◌, refl, ◌∙◌, Option, none, some, List, [], ◌∷◌, ◌++◌}
use distributed_job_queue.Store.View.{pop_right}
use distributed_job_queue.Worker.Claim.Order.{oldest, oldest-pop_right}
use distributed_job_queue.Line.{first, others}

abbrev pub from_right : List ℕ → List ℕ
from_right [] = []
from_right (x ∷ xs) = from_right xs ++ x ∷ []

-- What a pop at the right leaves.
abbrev pub left_by : Option (List ℕ × ℕ) → List ℕ → List ℕ
left_by none xs = xs
left_by (some (init, last)) xs = init

-- Either the list is empty, or it is cut at its right end.
pub data Cut (xs : List ℕ) : Type 0 where
  empty : pop_right xs ≡ none → from_right xs ≡ [] → Cut xs
  cut :
      (init : List ℕ) (last : ℕ)
      → pop_right xs ≡ some (init, last)
      → from_right xs ≡ last ∷ from_right init
      → Cut xs

pub Cut-of : (xs : List ℕ) → Cut xs
Cut-of [] = empty refl refl
Cut-of (x ∷ xs) = elim (Cut-of xs) [
  | empty e f ↦ cut [] x (rw e refl) (rw f refl)
  | cut init last e f ↦ cut (x ∷ init) last (rw e refl) (rw f refl)
]

pub oldest-first : (xs : List ℕ) → oldest xs ≡ first (from_right xs)
oldest-first xs =
    oldest-pop_right xs
    ∙ elim (Cut-of xs) [ empty e f ↦ rw (e, f) refl | cut init last e f ↦ rw (e, f) refl ]

pub from_right-left :
    (xs : List ℕ) → from_right (left_by (pop_right xs) xs) ≡ others (from_right xs)
from_right-left xs = elim (Cut-of xs) [
  | empty e f ↦ rw (e, f) refl
  | cut init last e f ↦ rw (e, f) refl
]
