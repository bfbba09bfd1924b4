-- ===== src/Dashboard/Api.antt =====
-- packages/dashboard/src/api.js, with the server as a parameter: what it answers to each call.
use distributed_job_queue.Base.{ℕ, Bool, true, false, ◌&&◌, leb, ◌==◌, if◌then◌else◌}
use distributed_job_queue.Store.Program.{Program, ret, ◌>>=◌}
use distributed_job_queue.Routes.Response.{Response, Body, nothing, not_found, health_body}
use distributed_job_queue.App.{Endpoint}

-- The message of the exception: the one in the body, or `Request failed: <status>`.
pub data Complaint : Type 0 where
  said : Body → Complaint
  request_failed : ℕ → Complaint

pub data Answer : Type 0 where
  got : Body → Answer
  refused : Complaint → Answer

-- Of the bodies that come with an error, only `not_found` has no message.
abbrev has_message : Body → Bool
has_message not_found = false
has_message (health_body redis postgres) = false
has_message _ = true

-- `res.ok`.
abbrev pub is_success : ℕ → Bool
is_success code = leb 200 code && leb code 299

abbrev pub complaint : Response → Complaint
complaint r = if has_message r.body then said r.body else request_failed r.code

unfoldable pub read_response : Response → Answer
read_response r =
    if is_success r.code
    then (if r.code == 204 then got nothing else got r.body)
    else refused (complaint r)

unfoldable pub request : (server : Endpoint → Program Response) → Endpoint → Program Answer
unfolding read_response
request server e = server e >>= λ r. ret (read_response r)
