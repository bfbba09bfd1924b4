-- ===== src/Store/Protocol.antt =====
-- Protocols: what a program may send, by a state that follows its commands and their answers. A
-- program obeys a protocol whatever the services answer, so also while others run and when they fail.
pub mod Steady
use distributed_job_queue.Base.{
  ◌≡◌, refl, sym, subst, Bool, true, false, if◌then◌else◌, List, [], ◌∷◌,
}
use distributed_job_queue.Job.{Error}
use distributed_job_queue.Store.Command.{Command, Reply}
use distributed_job_queue.Store.Program.{
  Result, ok, err, Program, ret, throw, call, await, resume, ◌>>=◌, try_catch, try_finally,
  for_each,
}
use distributed_job_queue.Store.System.{thread}
use distributed_job_queue.Store.Server.{Server, run}

pub record Protocol : Type 1 where
  pub State : Type 0
  pub next : State → (c : Command) → Result (Reply c) → State
  pub Permits : State → Command → Type 0

-- Whatever the services answer, each command is permitted with what the hand then holds.
abbrev pub Sends : (P : Protocol) {A : Type 0} → P.State → Program A → Type 0
Sends P h (ret a) = Unit
Sends P h (throw e) = Unit
Sends P h (call c k) = P.Permits h c × ((r : Result (Reply c)) → Sends P (P.next h c r) (k r))

pub record Obeys (P : Protocol) {A : Type 0} (h : P.State) (p : Program A) : Type 0 where
  pub sends : Sends P h p

module _ {P : Protocol} {A : Type 0} where
  pub Obeys-ret : (h : P.State) (a : A) → Obeys P h (ret a)
  Obeys-ret h a = record { sends = tt }

  pub Obeys-throw : (h : P.State) (e : Error) → Obeys P {A = A} h (throw e)
  Obeys-throw h e = record { sends = tt }

  -- A refused command ends the program, so only the answers matter.
  pub Obeys-await :
      (h : P.State) (c : Command) (f : Reply c → Program A)
      → P.Permits h c
      → ((x : Reply c) → Obeys P (P.next h c (ok x)) (f x))
      → Obeys P h (await c >>= f)
  Obeys-await h c f p q = record { sends = (p, λ r. answered r) }
    where
      answered : (r : Result (Reply c)) → Sends P (P.next h c r) (resume r >>= f)
      answered (ok x) = (q x).sends
      answered (err e) = tt

  -- The two branches of a test.
  pub Obeys-if :
      (h : P.State) (b : Bool) {p q : Program A}
      → (b ≡ true → Obeys P h p)
      → (b ≡ false → Obeys P h q)
      → Obeys P h (if b then p else q)
  Obeys-if h true p q = p refl
  Obeys-if h false p q = q refl

  pub Obeys-try_catch :
      (h : P.State) (m : Program A) (f : Error → Program A)
      → Obeys P h m
      → ((e : Error) (j : P.State) → Obeys P j (f e))
      → Obeys P h (try_catch m f)
  Obeys-try_catch h (ret a) f o q = record { sends = tt }
  Obeys-try_catch h (throw e) f o q = q e h
  Obeys-try_catch h (call c k) f o q = record {
    sends = (
      o.sends.0,
      λ r. (Obeys-try_catch (P.next h c r) (k r) f (record { sends = o.sends.1 r }) q).sends,
    );
  }

pub Obeys-last : {P : Protocol} (h : P.State) (c : Command) → P.Permits h c → Obeys P h (await c)
Obeys-last h c p = record { sends = (p, elim [ ok x ↦ tt | err e ↦ tt ]) }

module _ {P : Protocol} {A B : Type 0} where
  pub Obeys->>= :
      (h : P.State) (m : Program A) (f : A → Program B)
      → Obeys P h m
      → ((a : A) (j : P.State) → Obeys P j (f a))
      → Obeys P h (m >>= f)
  Obeys->>= h (ret a) f o q = q a h
  Obeys->>= h (throw e) f o q = record { sends = tt }
  Obeys->>= h (call c k) f o q = record {
    sends = (
      o.sends.0,
      λ r. (Obeys->>= (P.next h c r) (k r) f (record { sends = o.sends.1 r }) q).sends,
    );
  }

module _ {P : Protocol} {A S : Type 0} where
  pub Obeys-for_each :
      (h : P.State) (xs : List A) (s : S) (body : A → S → Program S)
      → ((x : A) (t : S) (j : P.State) → Obeys P j (body x t))
      → Obeys P h (for_each xs s body)
  Obeys-for_each h [] s body q = record { sends = tt }
  Obeys-for_each h (x ∷ xs) s body q =
      Obeys->>= h (body x s) (λ t. for_each xs t body) (q x s h)
        (λ t j. Obeys-for_each j xs t body q)

module _ {P : Protocol} {A : Type 0} where
  pub Obeys-thread : (h : P.State) (p : Program A) → Obeys P h p → Obeys P h (thread p)
  Obeys-thread h p o = Obeys->>= h p (λ _. ret tt) o (λ a j. record { sends = tt })

-- A program that obeys and leaves the state as it is.
abbrev pub Stays : (P : Protocol) {A : Type 0} → P.State → Program A → Type 0
Stays P h (ret a) = Unit
Stays P h (throw e) = Unit
Stays P h (call c k) =
    P.Permits h c
    × ((r : Result (Reply c)) → P.next h c r ≡ h)
    × ((r : Result (Reply c)) → Stays P h (k r))

pub Stays-resume : (P : Protocol) {A : Type 0} (h : P.State) (r : Result A) → Stays P h (resume r)
Stays-resume P h (ok a) = tt
Stays-resume P h (err e) = tt

module _ {P : Protocol} {A B : Type 0} where
  pub Stays->>= :
      (h : P.State) (m : Program A) (f : A → Program B)
      → Stays P h m
      → ((a : A) → Obeys P h (f a))
      → Obeys P h (m >>= f)
  Stays->>= h (ret a) f o q = q a
  Stays->>= h (throw e) f o q = record { sends = tt }
  Stays->>= h (call c k) f o q = record {
    sends = (
      o.0,
      λ r. subst (λ j. Sends P j (k r >>= f)) (sym (o.1 r)) (Stays->>= h (k r) f (o.2 r) q).sends,
    );
  }

pub ruleset obeys = (Obeys-ret, Obeys-throw, Obeys-await, Obeys-last)

-- A command that was sent, with what came of it.
pub record Issued : Type 0 where
  pub command : Command
  pub answer : Result (Reply command)

-- The commands of a run, against any services at all.
unfoldable pub trace : (srv : Server) {A : Type 0} → Program A → srv.World → List Issued
trace srv (ret a) w = []
trace srv (throw e) w = []
trace srv (call c k) w =
    let (r, w') = srv.exec c w in record { command = c; answer = r } ∷ trace srv (k r) w'

-- Every command of a trace is permitted in the state that the ones before it lead to.
abbrev pub Follows : (P : Protocol) → P.State → List Issued → Type 0
Follows P s [] = Unit
Follows P s (i ∷ is) = P.Permits s i.command × Follows P (P.next s i.command i.answer) is

abbrev pub state_after : (P : Protocol) → P.State → List Issued → P.State
state_after P s [] = s
state_after P s (i ∷ is) = state_after P (P.next s i.command i.answer) is

module _ {P : Protocol} (srv : Server) {A : Type 0} where
  pub trace-Follows :
      (s : P.State) (p : Program A) (w : srv.World) → Obeys P s p → Follows P s (trace srv p w)
  unfolding trace
  trace-Follows s (ret a) w o = tt
  trace-Follows s (throw e) w o = tt
  trace-Follows s (call c k) w o =
      let (r, w') = srv.exec c w in
      (o.sends.0, trace-Follows (P.next s c r) (k r) w' (record { sends = o.sends.1 r }))

-- However the program ends, with a result or an exception, `Q` holds of the state then.
abbrev pub Ends : (P : Protocol) → (P.State → Type 0) → {A : Type 0} → P.State → Program A → Type 0
Ends P Q s (ret a) = Q s
Ends P Q s (throw e) = Q s
Ends P Q s (call c k) = (r : Result (Reply c)) → Ends P Q (P.next s c r) (k r)

module _ (P : Protocol) (srv : Server) (Q : P.State → Type 0) {A : Type 0} where
  pub trace-Ends :
      (s : P.State) (p : Program A) (w : srv.World)
      → Ends P Q s p
      → Q (state_after P s (trace srv p w))
  unfolding trace
  trace-Ends s (ret a) w o = o
  trace-Ends s (throw e) w o = o
  trace-Ends s (call c k) w o =
      let (r, w') = srv.exec c w in trace-Ends (P.next s c r) (k r) w' (o r)

-- A `finally` of one command settles the state, whatever the body does.
pub try_finally-Ends :
    (P : Protocol) (Q : P.State → Type 0) {A : Type 0} (s : P.State) (m : Program A) (c : Command)
    → ((t : P.State) (r : Result (Reply c)) → Q (P.next t c r))
    → Ends P Q s (try_finally m (await c))
try_finally-Ends P Q s (ret a) c q = elim [ ok x ↦ q s (ok x) | err e ↦ q s (err e) ]
try_finally-Ends P Q s (throw e) c q = elim [ ok x ↦ q s (ok x) | err f ↦ q s (err f) ]
try_finally-Ends P Q s (call d k) c q = λ r. try_finally-Ends P Q (P.next s d r) (k r) c q
