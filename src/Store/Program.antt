-- ===== src/Store/Program.antt =====
-- An async function of the code as the tree of its awaited commands: what it does next depends on
-- the answer to the last command, which may be a rejection. try/catch and finally are functions on
-- trees.
use distributed_job_queue.Base.{List, [], ◌∷◌}
use distributed_job_queue.Job.{Error}
use distributed_job_queue.Store.Command.{Command, Reply}

pub data Result (A : Type 0) : Type 0 where
  ok : A → Result A
  err : Error → Result A

pub data Program (A : Type 0) : Type 0 where
  ret : A → Program A
  throw : Error → Program A
  call : (c : Command) → (Result (Reply c) → Program A) → Program A

abbrev pub resume : {A : Type 0} → Result A → Program A
resume (ok a) = ret a
resume (err e) = throw e

abbrev pub await : (c : Command) → Program (Reply c)
await c = call c resume

infixl 5 ◌>>=◌ ◌>>◌
abbrev pub ◌>>=◌ : {A B : Type 0} → Program A → (A → Program B) → Program B
ret a >>= f = f a
throw e >>= f = throw e
call c k >>= f = call c (λ r. k r >>= f)

abbrev pub ◌>>◌ : {A B : Type 0} → Program A → Program B → Program B
m >> k = m >>= λ _. k

-- `try { m } catch (err) { h(err) }`.
abbrev pub try_catch : {A : Type 0} → Program A → (Error → Program A) → Program A
try_catch (ret a) h = ret a
try_catch (throw e) h = h e
try_catch (call c k) h = call c (λ r. try_catch (k r) h)

-- `try { m } finally { f }`.
abbrev pub try_finally : {A B : Type 0} → Program A → Program B → Program A
try_finally (ret a) f = f >> ret a
try_finally (throw e) f = f >> throw e
try_finally (call c k) f = call c (λ r. try_finally (k r) f)

-- `for (const x of xs) { … }` over an accumulator.
abbrev pub for_each : {A S : Type 0} → List A → S → (A → S → Program S) → Program S
for_each [] s body = ret s
for_each (x ∷ xs) s body = body x s >>= λ s'. for_each xs s' body
