-- ===== src/Routes/Schemas.antt =====
-- The schemas of packages/server/src/routes/jobs.js and schedules.js, and how the handlers read what
-- passes them. Fastify's validator is a parameter: it may change a body before the handler sees it,
-- as its coercion of types, its defaults and its removal of unknown properties do.
mod Tests
pub mod Requests
pub mod Reading
pub mod Accepted
use Prim.Native.String.{count}
use distributed_job_queue.Base.{
  ℕ, String, Bool, true, false, not, ◌&&◌, Option, none, some, List, [], ◌∷◌, ◌≡◌, leb,
  if◌then◌else◌,
}
use mathlib.Core.Option
use text.Mathlib.Text.{◌==◌ as str_eq}
use distributed_job_queue.Payload.{Json, bool, num, str, obj, Fields, end, field, member}
use distributed_job_queue.Job.{
  Priority, high, normal, low, Status, queued, delayed, active, completed, failed, dead,
}
use distributed_job_queue.Queue.{Request}
use distributed_job_queue.Routes.Schedules.{ScheduleRequest}

-- The types that the schemas use, with `minLength`, `maxLength`, `enum`, `minimum` and `maximum`.
pub data Kind : Type 0 where
  string_of : (least : ℕ) (most : Option ℕ) → Kind
  one_of : List String → Kind
  whole : (least : ℕ) (most : Option ℕ) → Kind
  flag any_object : Kind

-- An entry of `properties`, with its `default`.
pub record Property : Type 0 where
  pub name : String
  pub kind : Kind
  pub fallback : Option Json

pub record Schema : Type 0 where
  pub required : List String
  pub additional_properties : Bool
  pub properties : List Property

abbrev plain : String → Kind → Property
plain name kind = record { name = name; kind = kind; fallback = none }

abbrev pub a_priority : Kind
a_priority = one_of ("high" ∷ "normal" ∷ "low" ∷ [])

abbrev pub a_status : Kind
a_status = one_of ("queued" ∷ "delayed" ∷ "active" ∷ "completed" ∷ "failed" ∷ "dead" ∷ [])

abbrev pub enqueue_schema : Schema
enqueue_schema = record {
  required = "type" ∷ [];
  additional_properties = false;
  properties =
      plain "type" (string_of 1 (some 255))
      ∷ plain "payload" any_object
      ∷ plain "priority" a_priority
      ∷ plain "delay" (whole 0 none)
      ∷ plain "maxRetries" (whole 0 (some 50))
      ∷ plain "idempotencyKey" (string_of 1 (some 255))
      ∷ [];
}

abbrev pub list_schema : Schema
list_schema = record {
  required = [];
  additional_properties = true;
  properties =
      plain "status" a_status
      ∷ plain "type" (string_of 0 none)
      ∷ record { name = "page"; kind = whole 1 none; fallback = some (num 1) }
      ∷ record { name = "pageSize"; kind = whole 1 (some 100); fallback = some (num 25) }
      ∷ [];
}

abbrev pub create_schema : Schema
create_schema = record {
  required = "type" ∷ "cronExpression" ∷ [];
  additional_properties = false;
  properties =
      plain "type" (string_of 1 (some 255))
      ∷ plain "cronExpression" (string_of 1 (some 120))
      ∷ plain "payloadTemplate" any_object
      ∷ plain "priority" a_priority
      ∷ plain "maxRetries" (whole 0 (some 50))
      ∷ plain "enabled" flag
      ∷ [];
}

abbrev pub at_most : Option ℕ → ℕ → Bool
at_most none n = true
at_most (some most) n = leb n most

abbrev pub is_among : List String → String → Bool
is_among [] s = false
is_among (t ∷ ts) s = let rest = is_among ts s in if str_eq t s then true else rest

-- What JSON Schema says of a value.
abbrev pub fits : Kind → Json → Bool
fits (string_of least most) (str s) = leb least (count s) && at_most most (count s)
fits (one_of names) (str s) = is_among names s
fits (whole least most) (num n) = leb least n && at_most most n
fits flag (bool b) = true
fits any_object (obj fs) = true
fits _ _ = false

abbrev pub is_there : Option Json → Bool
is_there none = false
is_there (some j) = true

-- A property with a default is there once the validator has filled it in.
abbrev pub fits_there : Kind → (fallback : Option Json) → Option Json → Bool
fits_there kind fallback none = not (is_there fallback)
fits_there kind fallback (some j) = fits kind j

abbrev pub all_there : List String → Json → Bool
all_there [] body = true
all_there (name ∷ names) body = is_there (member name body) && all_there names body

abbrev pub all_fit : List Property → Json → Bool
all_fit [] body = true
all_fit (p ∷ ps) body = fits_there p.kind p.fallback (member p.name body) && all_fit ps body

abbrev pub names_of : List Property → List String
names_of [] = []
names_of (p ∷ ps) = p.name ∷ names_of ps

abbrev pub only_named : List String → Fields → Bool
only_named names end = true
only_named names (field k j fs) = is_among names k && only_named names fs

abbrev pub nothing_else : Schema → Json → Bool
nothing_else s (obj fs) =
    if s.additional_properties then true else only_named (names_of s.properties) fs
nothing_else s _ = false

abbrev pub conforms : Schema → Json → Bool
conforms s body = all_fit s.properties body && (all_there s.required body && nothing_else s body)

abbrev pub Validator : Type 0
Validator = Schema → Json → Option Json

-- What Fastify documents of its validator: what the handler is given conforms to the schema.
pub record IsValidator (validate : Validator) : Type 0 where
  pub sound :
      (s : Schema) (body given : Json) → validate s body ≡ some given → conforms s given ≡ true
