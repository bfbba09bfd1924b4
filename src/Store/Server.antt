-- ===== src/Store/Server.antt =====
-- Redis and Postgres as a parameter, and the run of a program against them.
use distributed_job_queue.Base.{◌≡◌, refl, subst}
use distributed_job_queue.Store.Command.{Command, Reply}
use distributed_job_queue.Store.Program.{Result, ok, err, Program, ret, throw, call}
use distributed_job_queue.Store.View.{View, answer, effect}

-- The two services: their world, how a command runs, and what of the world a client can see.
-- `exec` may refuse any command, and what other clients do meanwhile is part of the world.
pub record Server : Type 1 where
  pub World : Type 0
  pub exec : (c : Command) → World → Result (Reply c) × World
  pub view : World → View

-- The services work as documented, none of their commands is lost, and no other client comes
-- between.
pub record IsReliable (srv : Server) : Type 0 where
  pub answers : (c : Command) (w : srv.World) → (srv.exec c w).0 ≡ answer c (srv.view w)
  pub effects : (c : Command) (w : srv.World) → srv.view (srv.exec c w).1 ≡ effect c (srv.view w)

unfoldable pub run : (srv : Server) {A : Type 0} → Program A → srv.World → Result A × srv.World
run srv (ret a) w = (ok a, w)
run srv (throw e) w = (err e, w)
run srv (call c k) w = run srv (k (srv.exec c w).0) (srv.exec c w).1

-- The run against the documented behaviour itself.
abbrev pub play : {A : Type 0} → Program A → View → Result A × View
play (ret a) v = (ok a, v)
play (throw e) v = (err e, v)
play (call c k) v = play (k (answer c v)) (effect c v)

module _ (srv : Server) (h : IsReliable srv) {A : Type 0} where
  abbrev pub Agrees : Result A × srv.World → Result A × View → Type 0
  Agrees r s = (r.0 ≡ s.0) × (srv.view r.1 ≡ s.1)

  -- A run against reliable services is the run against what their documentation says.
  pub run-play : (p : Program A) (w : srv.World) → Agrees (run srv p w) (play p (srv.view w))
  unfolding run
  run-play (ret a) w = (refl, refl)
  run-play (throw e) w = (refl, refl)
  run-play (call c k) w =
      let after = run srv (k (srv.exec c w).0) (srv.exec c w).1 in
      subst (λ r. Agrees after (play (k r) (effect c (srv.view w)))) (h.answers c w)
        (subst (λ v. Agrees after (play (k (srv.exec c w).0) v)) (h.effects c w)
          (run-play (k (srv.exec c w).0) (srv.exec c w).1))

  -- So what the documentation makes of a program is what the services make of it.
  pub run-eq :
      (p : Program A) (w : srv.World) {s : Result A × View}
      → play p (srv.view w) ≡ s
      → Agrees (run srv p w) s
  run-eq p w e = subst (Agrees (run srv p w)) e (run-play p w)

-- Documentation that runs: it meets the hypothesis.
abbrev pub documented : Server
documented = record { World = View; exec = λ c v. (answer c v, effect c v); view = λ v. v }

pub documented-IsReliable : IsReliable documented
documented-IsReliable = record { answers = λ c v. refl; effects = λ c v. refl }
