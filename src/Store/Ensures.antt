-- ===== src/Store/Ensures.antt =====
-- Programs that send only some commands and end with only some results, whatever the services answer.
use distributed_job_queue.Base.{Bool, true, false, if◌then◌else◌}
use distributed_job_queue.Job.{Error}
use distributed_job_queue.Store.Command.{Command, Reply}
use distributed_job_queue.Store.Program.{
  Result, ok, err, Program, ret, throw, call, await, ◌>>=◌, try_catch,
}

abbrev pub Keeps : (Sent : Command → Type 0) {A : Type 0} (Given : A → Type 0) → Program A → Type 0
Keeps Sent Given (ret a) = Given a
Keeps Sent Given (throw e) = Unit
Keeps Sent Given (call c k) = Sent c × ((r : Result (Reply c)) → Keeps Sent Given (k r))

pub record Ensures (Sent : Command → Type 0) {A : Type 0} (Given : A → Type 0) (p : Program A)
    : Type 0 where
  pub keeps : Keeps Sent Given p

-- Any result.
abbrev pub Anything : {A : Type 0} → A → Type 0
Anything a = Unit

module _ {Sent : Command → Type 0} {A : Type 0} {Given : A → Type 0} where
  pub Ensures-ret : (a : A) → Given a → Ensures Sent Given (ret a)
  Ensures-ret a g = record { keeps = g }

  pub Ensures-throw : (e : Error) → Ensures Sent Given (throw e)
  Ensures-throw e = record { keeps = tt }

  -- A refused command ends the program, so only the answers matter.
  pub Ensures-await :
      (c : Command) (f : Reply c → Program A)
      → Sent c
      → ((x : Reply c) → Ensures Sent Given (f x))
      → Ensures Sent Given (await c >>= f)
  Ensures-await c f s q = record { keeps = (s, elim [ ok x ↦ (q x).keeps | err e ↦ tt ]) }

  pub Ensures-if :
      (b : Bool) (p q : Program A)
      → Ensures Sent Given p
      → Ensures Sent Given q
      → Ensures Sent Given (if b then p else q)
  Ensures-if true p q o o' = o
  Ensures-if false p q o o' = o'

  pub Ensures-try_catch :
      (m : Program A) (f : Error → Program A)
      → Ensures Sent Given m
      → ((e : Error) → Ensures Sent Given (f e))
      → Ensures Sent Given (try_catch m f)
  Ensures-try_catch (ret a) f o q = o
  Ensures-try_catch (throw e) f o q = q e
  Ensures-try_catch (call c k) f o q = record {
    keeps = (o.keeps.0, λ r. (Ensures-try_catch (k r) f (record { keeps = o.keeps.1 r }) q).keeps);
  }

pub Ensures-last :
    {Sent : Command → Type 0} (c : Command) → Sent c → Ensures Sent Anything (await c)
Ensures-last c s = record { keeps = (s, elim [ ok x ↦ tt | err e ↦ tt ]) }

module _ {Sent : Command → Type 0} {A B : Type 0} {Given : B → Type 0} where
  pub Ensures->>= :
      (m : Program A) (f : A → Program B)
      → Ensures Sent Anything m
      → ((a : A) → Ensures Sent Given (f a))
      → Ensures Sent Given (m >>= f)
  Ensures->>= (ret a) f o q = q a
  Ensures->>= (throw e) f o q = record { keeps = tt }
  Ensures->>= (call c k) f o q = record {
    keeps = (o.keeps.0, λ r. (Ensures->>= (k r) f (record { keeps = o.keeps.1 r }) q).keeps);
  }

pub ruleset ensures = (Ensures-ret, Ensures-throw, Ensures-await, Ensures-last, Ensures-if)
