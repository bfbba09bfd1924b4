-- ===== src/Dashboard/Served.antt =====
-- The server of packages/server/src/app.js as packages/dashboard/src/api.js reaches it, for requests that
-- its parser of bodies and its hooks let through.
use distributed_job_queue.Base.{◌≡◌, ap, ◌∙◌}
use distributed_job_queue.Job.{Error}
use distributed_job_queue.Store.Program.{ok, Program, ret, try_catch}
use distributed_job_queue.Store.View.{View}
use distributed_job_queue.Store.Server.{play}
use distributed_job_queue.Store.Runs.{caught, play-try_catch, continued, play->>=}
use distributed_job_queue.Routes.Response.{Response}
use distributed_job_queue.App.{Config, Endpoint, handle, on_error, exception}
use distributed_job_queue.Dashboard.Api.{request, read_response}

abbrev pub as_500 : Error → Program Response
as_500 x = ret (on_error (exception x))

abbrev pub admitted : Config → Endpoint → Program Response
admitted cfg e = try_catch (handle cfg e) as_500

-- What a request gets where the handler answers.
pub play-request :
    (cfg : Config) (e : Endpoint) (v v' : View) (r : Response)
    → play (handle cfg e) v ≡ (ok r, v')
    → play (request (admitted cfg) e) v ≡ (ok (read_response r), v')
unfolding request
play-request cfg e v v' r ran =
    play->>= (admitted cfg e) (λ x. ret (read_response x)) v
    ∙ ap (continued (λ x. ret (read_response x)))
        (play-try_catch (handle cfg e) as_500 v ∙ ap (caught as_500) ran)
