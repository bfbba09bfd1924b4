-- ===== src/Routes/Schemas/Tests.antt =====
-- A body and a query that pass a validator which changes nothing.
use Prim.Native.String.{count}
use distributed_job_queue.Base.{ℕ, ◌≤◌, ◌≡◌, refl, false, none, some, arith, if◌then◌else◌, String}
use distributed_job_queue.Payload.{Json, num, neg, str, obj, end, field}
use distributed_job_queue.Routes.Schemas.{
  Validator, IsValidator, conforms, enqueue_schema, create_schema,
}
use distributed_job_queue.Routes.Schemas.Requests.{read_request, read_query, ListQuery}
use distributed_job_queue.Routes.Schemas.Accepted.{
  IsStorable, enqueue_schema-IsStorable, list_schema-IsBetween,
}
use distributed_job_queue.Queue.{Request}

abbrev checked : Validator
checked s body = if conforms s body then some body else none

checked-IsValidator : IsValidator checked
checked-IsValidator = record { sound = λ s body given e. ground (arith, e) }

abbrev body : Json
body = obj (
    field "type" (str "noop")
      (field "priority" (str "low") (field "maxRetries" (num 5) (field "payload" (obj end) end))))

abbrev query : Json
query = obj (field "page" (num 2) (field "pageSize" (num 25) end))

-- An unknown property, a negative delay and a missing type are refused.
refuses_unknown :
    conforms enqueue_schema (obj (field "type" (str "noop") (field "x" (num 1) end))) ≡ false
refuses_unknown = refl

refuses_negative :
    conforms enqueue_schema (obj (field "type" (str "noop") (field "delay" (neg 0) end))) ≡ false
refuses_negative = refl

refuses_no_type :
    conforms create_schema (obj (field "cronExpression" (str "* * * * *") end)) ≡ false
refuses_no_type = refl

abbrev one_key : String → ℕ
one_key s = count s

enqueue_schema-IsStorable_example :
    (req : Request) × (read_request one_key body ≡ some req) × IsStorable req
enqueue_schema-IsStorable_example =
    enqueue_schema-IsStorable checked checked-IsValidator one_key body body refl

checked_query :
    (q : ListQuery) × (read_query query ≡ some q)
    × (1 ≤ q.page)
    × (1 ≤ q.page_size)
    × (q.page_size ≤ 100)
checked_query = list_schema-IsBetween checked checked-IsValidator query query refl
