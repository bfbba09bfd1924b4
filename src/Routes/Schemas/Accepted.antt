-- ===== src/Routes/Schemas/Accepted.antt =====
-- What the handlers of packages/server/src/routes/jobs.js and schedules.js can rely on: a body that the
-- schema lets through has every field at the type that the code uses it at.
use distributed_job_queue.Base.{ℕ, ◌≤◌, ◌≡◌, refl, String, none, some, inl, inr}
use mathlib.Core.Option
use distributed_job_queue.Payload.{Json, num, member}
use distributed_job_queue.Queue.{Request}
use distributed_job_queue.Routes.Schedules.{ScheduleRequest}
use distributed_job_queue.Routes.Schemas.{
  string_of, a_priority, a_status, whole, flag, any_object, enqueue_schema, list_schema,
  create_schema, Validator, IsValidator,
}
use distributed_job_queue.Routes.Schemas.Requests.{
  as_text, as_number, as_flag, as_object, as_priority, as_status, read_request, read_schedule,
  ListQuery, read_query,
}
use distributed_job_queue.Routes.Schemas.Reading.{
  and_true, IsText, IsBetween, IsObject, Anything, IsText-Reads, any_string_Reads, number_Reads,
  flag_Reads, IsObject-Reads, priority_Reads, status_Reads, optional_Reads, required_Reads,
  conforms-AllFit,
}

-- What POST /jobs relies on, with the limits of the columns of packages/db/schema.sql.
pub record IsStorable (req : Request) : Type 0 where
  pub type_fits : IsText 1 255 req.type
  pub payload_fits : (j : Json) → req.payload ≡ some j → IsObject j
  pub retries_fit : (n : ℕ) → req.max_retries ≡ some n → n ≤ 50

pub record IsSchedulable (req : ScheduleRequest) : Type 0 where
  pub type_fits : IsText 1 255 req.type
  pub cron_fits : IsText 1 120 req.cron_expression
  pub template_fits : (j : Json) → req.payload_template ≡ some j → IsObject j
  pub retries_fit : (n : ℕ) → req.max_retries ≡ some n → n ≤ 50

module _ (validate : Validator) (v : IsValidator validate) where
  -- Whatever body the validator lets through for POST /jobs, the handler reads each of its fields at
  -- the type that enqueueJob uses it at; the type has 1 to 255 characters, the payload is an object
  -- and the retries are at most 50, where they are given.
  pub enqueue_schema-IsStorable :
      (key_id : String → ℕ) (body given : Json)
      → validate enqueue_schema body ≡ some given
      → (req : Request) × (read_request key_id given ≡ some req) × IsStorable req
  unfolding read_request
  enqueue_schema-IsStorable key_id body given e =
      let (fit, there) =
        conforms-AllFit enqueue_schema given (v.sound enqueue_schema body given e) in
      let (a, (b, (c, (d, (m, (k, end)))))) = fit in
      let (type, type_is, type_fits) =
        required_Reads (string_of 1 (some 255)) as_text (IsText 1 255) (IsText-Reads 1 255)
          (member "type" given) none (inl (and_true _ _ there).0) a in
      let (payload, payload_is, payload_fits) =
        optional_Reads any_object as_object IsObject IsObject-Reads (member "payload" given) b in
      let (priority, priority_is, any) =
        optional_Reads a_priority as_priority Anything priority_Reads (member "priority" given) c in
      let (delay, delay_is, delay_fits) =
        optional_Reads (whole 0 none) as_number (IsBetween 0 none) (number_Reads 0 none)
          (member "delay" given) d in
      let (retries, retries_are, retries_fit) =
        optional_Reads (whole 0 (some 50)) as_number (IsBetween 0 (some 50))
          (number_Reads 0 (some 50)) (member "maxRetries" given) m in
      let (key, key_is, key_fits) =
        optional_Reads (string_of 1 (some 255)) as_text (IsText 1 255) (IsText-Reads 1 255)
          (member "idempotencyKey" given) k in
      (
        record {
          type = type;
          payload = payload;
          priority = priority;
          delay = delay;
          max_retries = retries;
          idempotency_key = Option.map key_id key;
        },
        rw (type_is, payload_is, priority_is, delay_is, retries_are, key_is) refl,
        record {
          type_fits = type_fits;
          payload_fits = payload_fits;
          retries_fit = λ n q. (retries_fit n q).1;
        },
      )

  -- Whatever body the validator lets through for POST /schedules, the handler reads each of its
  -- fields at the type that it uses it at; the type has 1 to 255 characters, the cron expression 1 to
  -- 120, the template is an object and the retries are at most 50, where they are given.
  pub create_schema-IsSchedulable :
      (body given : Json)
      → validate create_schema body ≡ some given
      → (req : ScheduleRequest) × (read_schedule given ≡ some req) × IsSchedulable req
  unfolding read_schedule
  create_schema-IsSchedulable body given e =
      let (fit, there) = conforms-AllFit create_schema given (v.sound create_schema body given e) in
      let (a, (b, (c, (d, (m, (k, end)))))) = fit in
      let (has_type, more) = and_true _ _ there in
      let (type, type_is, type_fits) =
        required_Reads (string_of 1 (some 255)) as_text (IsText 1 255) (IsText-Reads 1 255)
          (member "type" given) none (inl has_type) a in
      let (cron, cron_is, cron_fits) =
        required_Reads (string_of 1 (some 120)) as_text (IsText 1 120) (IsText-Reads 1 120)
          (member "cronExpression" given) none (inl (and_true _ _ more).0) b in
      let (template, template_is, template_fits) =
        optional_Reads any_object as_object IsObject IsObject-Reads (member "payloadTemplate" given)
          c in
      let (priority, priority_is, any) =
        optional_Reads a_priority as_priority Anything priority_Reads (member "priority" given) d in
      let (retries, retries_are, retries_fit) =
        optional_Reads (whole 0 (some 50)) as_number (IsBetween 0 (some 50))
          (number_Reads 0 (some 50)) (member "maxRetries" given) m in
      let (enabled, enabled_is, any') =
        optional_Reads flag as_flag Anything flag_Reads (member "enabled" given) k in
      (
        record {
          type = type;
          cron_expression = cron;
          payload_template = template;
          priority = priority;
          max_retries = retries;
          enabled = enabled;
        },
        rw (type_is, cron_is, template_is, priority_is, retries_are, enabled_is) refl,
        record {
          type_fits = type_fits;
          cron_fits = cron_fits;
          template_fits = template_fits;
          retries_fit = λ n q. (retries_fit n q).1;
        },
      )

  -- Whatever query the validator lets through for GET /jobs, with its defaults, the handler reads a
  -- page from 1 and a page size from 1 to 100, and a status and a type, where they are given.
  pub list_schema-IsBetween :
      (query given : Json)
      → validate list_schema query ≡ some given
      → (q : ListQuery) × (read_query given ≡ some q)
        × (1 ≤ q.page)
        × (1 ≤ q.page_size)
        × (q.page_size ≤ 100)
  unfolding read_query
  list_schema-IsBetween query given e =
      let (fit, there) = conforms-AllFit list_schema given (v.sound list_schema query given e) in
      let (a, (b, (c, (d, end)))) = fit in
      let (status, status_is, any) =
        optional_Reads a_status as_status Anything status_Reads (member "status" given) a in
      let (type, type_is, any') =
        optional_Reads (string_of 0 none) as_text Anything any_string_Reads (member "type" given)
          b in
      let (page, page_is, page_fits) =
        required_Reads (whole 1 none) as_number (IsBetween 1 none) (number_Reads 1 none)
          (member "page" given) (some (num 1)) (inr refl) c in
      let (size, size_is, size_fits) =
        required_Reads (whole 1 (some 100)) as_number (IsBetween 1 (some 100))
          (number_Reads 1 (some 100)) (member "pageSize" given) (some (num 25)) (inr refl) d in
      (
        record { status = status; type = type; page = page; page_size = size },
        rw (status_is, type_is, page_is, size_is) refl,
        page_fits,
        size_fits.0,
        size_fits.1,
      )
