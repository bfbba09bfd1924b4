-- ===== src/App/Health.antt =====
-- GET /health of packages/server/src/app.js.
use distributed_job_queue.Job.{Error}
use distributed_job_queue.Base.{
  ℕ, String, Option, ◌≡◌, refl, Bool, true, false, ◌&&◌, if◌then◌else◌,
}
use distributed_job_queue.Store.Command.{ping, select_one}
use distributed_job_queue.Store.Program.{
  Result, ok, err, Program, await, resume, ret, try_catch, ◌>>=◌, ◌>>◌,
}
use distributed_job_queue.Store.Server.{Server, run}
use distributed_job_queue.Routes.Response.{Response, health_body}
use distributed_job_queue.App.{Config, health, get_health, dispatch, respond, succeeds}

abbrev pub is_ok : {A : Type 0} → Result A → Bool
is_ok (ok a) = true
is_ok (err e) = false

-- The two probes, one after the other.
abbrev pub pinged : (srv : Server) → srv.World → Result Unit × srv.World
pinged srv w = srv.exec ping w

abbrev pub probed : (srv : Server) → srv.World → Result Unit × srv.World
probed srv w = srv.exec select_one (pinged srv w).1

abbrev answered : Bool → Bool → Response
answered redis postgres = record {
  code = if redis && postgres then 200 else 503;
  body = health_body redis postgres;
}

module _ (srv : Server) (f : Error → Program Response) where
  abbrev after_postgres : Bool → Result Unit → Program Response
  after_postgres redis r =
      try_catch
        (try_catch (resume r >> ret true) (λ e. ret false) >>= λ postgres.
          ret (answered redis postgres))
        f

  run-after_postgres :
      (redis : Bool) (r : Result Unit) (w : srv.World)
      → run srv (after_postgres redis r) w ≡ (ok (answered redis (is_ok r)), w)
  unfolding run
  run-after_postgres redis (ok a) w = refl
  run-after_postgres redis (err e) w = refl

  abbrev after_redis : Result Unit → Program Response
  after_redis r =
      try_catch
        (try_catch (resume r >> ret true) (λ e. ret false) >>= λ redis.
          succeeds (await select_one) >>= λ postgres. ret (answered redis postgres))
        f

  run-after_redis :
      (r : Result Unit) (w : srv.World)
      → let (r', w') = srv.exec select_one w in
        run srv (after_redis r) w ≡ (ok (answered (is_ok r) (is_ok r')), w')
  unfolding run
  run-after_redis (ok a) w =
      run-after_postgres true (srv.exec select_one w).0 (srv.exec select_one w).1
  run-after_redis (err e) w =
      run-after_postgres false (srv.exec select_one w).0 (srv.exec select_one w).1

-- Whatever the services do, GET /health is answered: 200 exactly if both Redis and Postgres answer,
-- and else 503, with what has answered in the body; no API key is asked for.
pub respond-health :
    (srv : Server) (cfg : Config) (api_key : Option String) (arrived : ℕ) (w : srv.World)
    → let redis = is_ok (pinged srv w).0 in
      let postgres = is_ok (probed srv w).0 in
      run srv (respond cfg (record { api_key = api_key; arrived = arrived; target = health })) w ≡ (
        ok (record {
          code = if redis && postgres then 200 else 503;
          body = health_body redis postgres;
        }),
        (probed srv w).1,
      )
unfolding respond dispatch get_health run
respond-health srv cfg api_key arrived w = run-after_redis srv _ (pinged srv w).0 (pinged srv w).1
