-- ===== src/Audit.antt =====
-- NFR-5: the audit log `job_events`, as a protocol that every process which changes the status of a job
-- keeps to. The code is that of packages/server/src/lib/queue.js, packages/worker/src,
-- packages/reaper/src/index.js and packages/scheduler/src/index.js.
mod Tests
pub mod Enqueuing
pub mod Working
pub mod Recovering
pub mod Kept
use distributed_job_queue.Base.{
  ℕ, ◌≡◌, refl, Bool, true, false, Option, none, some, List, [], ◌∷◌, if◌then◌else◌,
}
use distributed_job_queue.Job.{Status, Message, Error, LogEntry}
use distributed_job_queue.Store.Command.{
  Command, Reply, insert_job, update_job, set_status, insert_event,
}
use distributed_job_queue.Store.Program.{
  Result, ok, err, Program, ret, throw, call, await, resume, ◌>>=◌, ◌>>◌, try_catch, try_finally,
  for_each,
}
use distributed_job_queue.Store.Protocol.{Protocol, Sends, Obeys, Ends}
use distributed_job_queue.Queue.{log_event}

-- A status that Postgres has confirmed, and whose entry is still to come.
pub record Debt : Type 0 where
  pub job_id : ℕ
  pub status : Status

abbrev pub debt_of : Command → Option Debt
debt_of (insert_job r) = some (record { job_id = r.id; status = r.status })
debt_of (update_job i (set_status s ∷ as')) = some (record { job_id = i; status = s })
debt_of c = none

abbrev pub debt_after : Option Debt → (c : Command) → Result (Reply c) → Option Debt
debt_after d c (ok x) = debt_of c
debt_after d c (err e) = none

abbrev pub Pays : Option Debt → Command → Type 0
Pays none c = Unit
Pays (some d) (insert_event e) = (e.job_id ≡ d.job_id) × (e.status ≡ d.status)
Pays (some d) c = ⊥

-- While an entry is to come, no other command may be sent.
abbrev pub audit : Protocol
audit = record { State = Option Debt; next = debt_after; Permits = Pays }

abbrev pub IsClear : Option Debt → Type 0
IsClear none = Unit
IsClear (some d) = ⊥

-- What a program sends, and that it leaves no debt, however it ends.
abbrev pub Settles : {A : Type 0} → Option Debt → Program A → Type 0
Settles d (ret a) = IsClear d
Settles d (throw e) = IsClear d
Settles d (call c k) = Pays d c × ((r : Result (Reply c)) → Settles (debt_after d c r) (k r))

pub record Audits {A : Type 0} (d : Option Debt) (p : Program A) : Type 0 where
  pub settles : Settles d p

module _ {A : Type 0} where
  pub Audits-ret : (a : A) → Audits none (ret a)
  Audits-ret a = record { settles = tt }

  pub Audits-throw : (e : Error) → Audits {A = A} none (throw e)
  Audits-throw e = record { settles = tt }

  pub Audits-await :
      (c : Command) (f : Reply c → Program A)
      → ((x : Reply c) → Audits (debt_of c) (f x))
      → Audits none (await c >>= f)
  Audits-await c f q = record { settles = (tt, elim [ ok x ↦ (q x).settles | err e ↦ tt ]) }

  -- The entry that is due.
  Audits-entry :
      (id : ℕ) (s : Status) (e : LogEntry) (f : Unit {0} → Program A)
      → e.job_id ≡ id
      → e.status ≡ s
      → Audits none (f tt)
      → Audits (some (record { job_id = id; status = s })) (await (insert_event e) >>= f)
  Audits-entry id s e f p q o = record {
    settles = ((p, q), elim [ ok x ↦ o.settles | err x ↦ tt ]);
  }

  -- A confirmed change of a status, with its entry.
  pub Audits-logged :
      (c : Command) (id : ℕ) (s : Status) (m : Message) (f : Reply c → Program A)
      → debt_of c ≡ some (record { job_id = id; status = s })
      → ((x : Reply c) → Audits none (f x))
      → Audits none (await c >>= λ x. (log_event id s m >>= λ _. f x))
  unfolding log_event
  Audits-logged c id s m f e q = Audits-await c _ (λ x. by_debt x)
    where
      entry : LogEntry
      entry = record { job_id = id; status = s; message = m }

      by_debt : (x : Reply c) → Audits (debt_of c) (await (insert_event entry) >>= λ _. f x)
      by_debt x = rw e (Audits-entry id s entry (λ _. f x) refl refl (q x))

  pub Audits-if :
      (b : Bool) {p q : Program A}
      → Audits none p
      → Audits none q
      → Audits none (if b then p else q)
  Audits-if true o o' = o
  Audits-if false o o' = o'

  pub Audits-try_catch :
      (d : Option Debt) (m : Program A) (f : Error → Program A)
      → Audits d m
      → ((e : Error) → Audits none (f e))
      → Audits d (try_catch m f)
  Audits-try_catch d (ret a) f o q = o
  Audits-try_catch none (throw e) f o q = q e
  Audits-try_catch (some d) (throw e) f o q = absurd o.settles
  Audits-try_catch d (call c k) f o q = record {
    settles = (
      o.settles.0,
      λ r.
          (Audits-try_catch (debt_after d c r) (k r) f (record { settles = o.settles.1 r })
            q).settles,
    );
  }

module _ {A B : Type 0} where
  pub Audits->>= :
      (d : Option Debt) (m : Program A) (f : A → Program B)
      → Audits d m
      → ((a : A) → Audits none (f a))
      → Audits d (m >>= f)
  Audits->>= none (ret a) f o q = q a
  Audits->>= (some d) (ret a) f o q = absurd o.settles
  Audits->>= d (throw e) f o q = record { settles = o.settles }
  Audits->>= d (call c k) f o q = record {
    settles = (
      o.settles.0,
      λ r. (Audits->>= (debt_after d c r) (k r) f (record { settles = o.settles.1 r }) q).settles,
    );
  }

module _ {A B : Type 0} where
  pub Audits-try_finally :
      (d : Option Debt) (m : Program A) (f : Program B)
      → Audits d m
      → Audits none f
      → Audits d (try_finally m f)
  Audits-try_finally none (ret a) f o q = Audits->>= none f (λ _. ret a) q (λ _. Audits-ret a)
  Audits-try_finally none (throw e) f o q = Audits->>= none f (λ _. throw e) q (λ _. Audits-throw e)
  Audits-try_finally (some d) (ret a) f o q = absurd o.settles
  Audits-try_finally (some d) (throw e) f o q = absurd o.settles
  Audits-try_finally d (call c k) f o q = record {
    settles = (
      o.settles.0,
      λ r.
          (Audits-try_finally (debt_after d c r) (k r) f (record { settles = o.settles.1 r })
            q).settles,
    );
  }

module _ {A S : Type 0} where
  pub Audits-for_each :
      (xs : List A) (s : S) (body : A → S → Program S)
      → ((x : A) (t : S) → Audits none (body x t))
      → Audits none (for_each xs s body)
  Audits-for_each [] s body q = Audits-ret s
  Audits-for_each (x ∷ xs) s body q =
      Audits->>= none (body x s) _ (q x s) (λ t. Audits-for_each xs t body q)

-- A last command that changes no status.
pub Audits-last : (c : Command) → debt_of c ≡ none → Audits none (await c)
Audits-last c q = record { settles = (tt, elim [ ok x ↦ rw q tt | err e ↦ tt ]) }

pub Audits-resume :
    {A B : Type 0} (r : Result A) (f : A → Program B)
    → ((a : A) → Audits none (f a))
    → Audits none (resume r >>= f)
Audits-resume (ok a) f q = q a
Audits-resume (err e) f q = Audits-throw e

-- What audits sends by the protocol, and ends without a debt.
pub Audits-Obeys : {A : Type 0} (d : Option Debt) (p : Program A) → Audits d p → Obeys audit d p
Audits-Obeys d (ret a) o = record { sends = tt }
Audits-Obeys d (throw e) o = record { sends = tt }
Audits-Obeys d (call c k) o = record {
  sends = (
    o.settles.0,
    λ r. (Audits-Obeys (debt_after d c r) (k r) (record { settles = o.settles.1 r })).sends,
  );
}

IsClear-none : (d : Option Debt) → IsClear d → d ≡ none
IsClear-none none c = refl
IsClear-none (some d) c = absurd c

pub Audits-Ends :
    {A : Type 0} (d : Option Debt) (p : Program A) → Audits d p → Ends audit (λ h. h ≡ none) d p
Audits-Ends d (ret a) o = IsClear-none d o.settles
Audits-Ends d (throw e) o = IsClear-none d o.settles
Audits-Ends d (call c k) o =
    λ r. Audits-Ends (debt_after d c r) (k r) (record { settles = o.settles.1 r })
