-- ===== src/Store/Triples.antt =====
-- Runs that end with a result: what holds of it and of the view that is left.
use distributed_job_queue.Base.{◌≡◌, sym, ◌∙◌, ap, subst}
use distributed_job_queue.Job.{Error}
use distributed_job_queue.Store.Program.{Result, ok, Program, ◌>>=◌, try_catch}
use distributed_job_queue.Store.View.{View}
use distributed_job_queue.Store.Server.{play}
use distributed_job_queue.Store.Runs.{caught, play-try_catch, continued, play->>=}

pub record Ends {A : Type 0} (Q : A → View → Type 0) (r : Result A × View) : Type 0 where
  pub value : A
  pub after : View
  pub ends : r ≡ (ok value, after)
  pub holds : Q value after

module _ {A : Type 0} {Q : A → View → Type 0} where
  pub Ends-at : (a : A) (u : View) {r : Result A × View} → r ≡ (ok a, u) → Q a u → Ends Q r
  Ends-at a u e q = record { value = a; after = u; ends = e; holds = q }

  pub Ends-try_catch :
      (m : Program A) (f : Error → Program A) (v : View)
      → Ends Q (play m v)
      → Ends Q (play (try_catch m f) v)
  Ends-try_catch m f v p =
      Ends-at p.value p.after (play-try_catch m f v ∙ ap (caught f) p.ends) p.holds

module _ {A B : Type 0} {Q : A → View → Type 0} {R : B → View → Type 0} where
  pub Ends->>= :
      (m : Program A) (f : A → Program B) (v : View)
      → Ends Q (play m v)
      → ((a : A) (u : View) → Q a u → Ends R (play (f a) u))
      → Ends R (play (m >>= f) v)
  Ends->>= m f v p q =
      subst (Ends R) (sym (play->>= m f v ∙ ap (continued f) p.ends)) (q p.value p.after p.holds)
