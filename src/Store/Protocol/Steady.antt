-- ===== src/Store/Protocol/Steady.antt =====
-- Programs whose commands leave the state of a protocol as it is.
use distributed_job_queue.Base.{◌≡◌, sym, subst, List, [], ◌∷◌, Bool, true, false, if◌then◌else◌}
use distributed_job_queue.Job.{Error}
use distributed_job_queue.Store.Command.{Command, Reply}
use distributed_job_queue.Store.Program.{
  Result, ok, err, Program, ret, throw, call, ◌>>=◌, await, try_catch, try_finally, for_each,
}
use distributed_job_queue.Store.Protocol.{Protocol, Sends, Obeys, Stays}

pub record IsSteady (P : Protocol) {A : Type 0} (h : P.State) (p : Program A) : Type 0 where
  pub stays : Stays P h p

-- Permitted, and of no effect on the state.
abbrev pub IsNeutral : (P : Protocol) (h : P.State) → Command → Type 0
IsNeutral P h c = P.Permits h c × ((r : Result (Reply c)) → P.next h c r ≡ h)

module _ {P : Protocol} {A : Type 0} where
  pub IsSteady-ret : (h : P.State) (a : A) → IsSteady P h (ret a)
  IsSteady-ret h a = record { stays = tt }

  pub IsSteady-await :
      (h : P.State) (c : Command) (f : Reply c → Program A)
      → IsNeutral P h c
      → ((x : Reply c) → IsSteady P h (f x))
      → IsSteady P h (await c >>= f)
  IsSteady-await h c f s q = record { stays = (s.0, s.1, elim [ ok x ↦ (q x).stays | err e ↦ tt ]) }

  pub IsSteady-if :
      (h : P.State) (b : Bool) (p q : Program A)
      → IsSteady P h p
      → IsSteady P h q
      → IsSteady P h (if b then p else q)
  IsSteady-if h true p q o o' = o
  IsSteady-if h false p q o o' = o'

  pub IsSteady-try_catch :
      (h : P.State) (m : Program A) (f : Error → Program A)
      → IsSteady P h m
      → ((e : Error) → IsSteady P h (f e))
      → IsSteady P h (try_catch m f)
  IsSteady-try_catch h (ret a) f o q = o
  IsSteady-try_catch h (throw e) f o q = q e
  IsSteady-try_catch h (call c k) f o q = record {
    stays = (
      o.stays.0,
      o.stays.1,
      λ r. (IsSteady-try_catch h (k r) f (record { stays = o.stays.2 r }) q).stays,
    );
  }

  -- A steady body, and then a `finally` of one permitted command.
  pub try_finally-Obeys :
      (h : P.State) (m : Program A) (c : Command)
      → IsSteady P h m
      → P.Permits h c
      → Obeys P h (try_finally m (await c))
  try_finally-Obeys h (ret a) c o p = record { sends = (p, elim [ ok x ↦ tt | err e ↦ tt ]) }
  try_finally-Obeys h (throw e) c o p = record { sends = (p, elim [ ok x ↦ tt | err f ↦ tt ]) }
  try_finally-Obeys h (call d k) c o p = record {
    sends = (
      o.stays.0,
      λ r.
          subst (λ j. Sends P j (try_finally (k r) (await c))) (sym (o.stays.1 r))
            (try_finally-Obeys h (k r) c (record { stays = o.stays.2 r }) p).sends,
    );
  }

pub IsSteady-last :
    {P : Protocol} (h : P.State) (c : Command) → IsNeutral P h c → IsSteady P h (await c)
IsSteady-last h c s = record { stays = (s.0, s.1, elim [ ok x ↦ tt | err e ↦ tt ]) }

module _ {P : Protocol} {A B : Type 0} where
  pub IsSteady->>= :
      (h : P.State) (m : Program A) (f : A → Program B)
      → IsSteady P h m
      → ((a : A) → IsSteady P h (f a))
      → IsSteady P h (m >>= f)
  IsSteady->>= h (ret a) f o q = q a
  IsSteady->>= h (throw e) f o q = record { stays = tt }
  IsSteady->>= h (call c k) f o q = record {
    stays = (
      o.stays.0,
      o.stays.1,
      λ r. (IsSteady->>= h (k r) f (record { stays = o.stays.2 r }) q).stays,
    );
  }

module _ {P : Protocol} {A S : Type 0} where
  pub IsSteady-for_each :
      (h : P.State) (xs : List A) (s : S) (body : A → S → Program S)
      → ((x : A) (t : S) → IsSteady P h (body x t))
      → IsSteady P h (for_each xs s body)
  IsSteady-for_each h [] s body q = record { stays = tt }
  IsSteady-for_each h (x ∷ xs) s body q =
      IsSteady->>= h (body x s) (λ t. for_each xs t body) (q x s)
        (λ t. IsSteady-for_each h xs t body q)
