-- ===== src/Worker/Handlers.antt =====
-- packages/worker/src/handlers. A handler settles with a result or an exception after some
-- milliseconds; `latency` is the simulated network latency that sendEmail adds to 100.
use distributed_job_queue.Base.{
  ℕ, ◌+◌, String, Bool, true, false, not, ◌&&◌, ◌||◌, List, [], ◌∷◌, Option, none, some, ltb,
  if◌then◌else◌,
}
use text.Mathlib.Text.{◌==◌ as str_eq}
use distributed_job_queue.Payload.{Json, null, obj, arr, end, member, truthy, is_text}
use distributed_job_queue.Job.{no_handler, type_error, payload_to_required, provider_failure}
use distributed_job_queue.Store.Program.{Result, ok, err}

pub data Output : Type 0 where
  ok_true : Output
  sent : (recipient template : Option Json) → Output
  as_object : Json → Output
  object_undefined false_value : Output

pub record Settled : Type 0 where
  pub outcome : Result Output
  pub after_ms : ℕ

abbrev pub Handler : Type 0
Handler = (payload : Json) (attempt latency : ℕ) → Settled

unfoldable pub noop : Handler
noop payload attempt latency = record { outcome = ok ok_true; after_ms = 0 }

unfoldable pub send_email : Handler
-- `null` has no fields to take.
send_email null attempt latency = record { outcome = err type_error; after_ms = 0 }
send_email payload attempt latency =
    let recipient = member "to" payload in
    let template = member "template" payload in
    if not (truthy recipient)
    then record { outcome = err payload_to_required; after_ms = 0 }
    else if is_text "flaky-demo" template && ltb attempt 1
    then record { outcome = err provider_failure; after_ms = 0 }
    else record { outcome = ok (sent recipient template); after_ms = 100 + latency }

-- What Object.prototype has as functions and the code calls with `undefined` for `this`: the value, or
-- the TypeError.
abbrev settled_at_once : Result Output → Settled
settled_at_once r = record { outcome = r; after_ms = 0 }

-- `Object(payload)`.
abbrev constructor_of : Handler
constructor_of null attempt latency = settled_at_once (ok (as_object (obj end)))
constructor_of payload attempt latency = settled_at_once (ok (as_object payload))

abbrev to_string : Handler
to_string payload attempt latency = settled_at_once (ok object_undefined)

abbrev is_object : Json → Bool
is_object (obj fs) = true
is_object (arr xs) = true
is_object _ = false

-- Only an argument that is an object leads to the conversion of `this`.
abbrev is_prototype_of : Handler
is_prototype_of payload attempt latency =
    settled_at_once (if is_object payload then err type_error else ok false_value)

abbrev needs_this : Handler
needs_this payload attempt latency = settled_at_once (err type_error)

abbrev contains : String → List String → Bool
contains name [] = false
contains name (n ∷ ns) = str_eq name n || contains name ns

-- The other members: functions that convert `this`, and `__proto__`, which is no function.
abbrev throwing_names : List String
throwing_names =
    "toLocaleString" ∷ "valueOf" ∷ "hasOwnProperty" ∷ "propertyIsEnumerable" ∷ "__defineGetter__"
    ∷ "__defineSetter__" ∷ "__lookupGetter__" ∷ "__lookupSetter__" ∷ "__proto__" ∷ []

-- `handlers[type]`, which also finds what an object literal inherits.
abbrev inherited : String → Option Handler
inherited type =
    if str_eq type "constructor"
    then some constructor_of
    else if str_eq type "toString"
    then some to_string
    else if str_eq type "isPrototypeOf"
    then some is_prototype_of
    else if contains type throwing_names
    then some needs_this
    else none

abbrev found_or_throw : String → Option Handler → Result Handler
found_or_throw type none = err (no_handler (some type))
found_or_throw type (some handler) = ok handler

-- `getHandler(type)`; the type is undefined in the envelope `{ id }`.
unfoldable pub get_handler : Option String → Result Handler
unfolding send_email noop
get_handler none = err (no_handler none)
get_handler (some type) =
    if str_eq type "send_email"
    then ok send_email
    else if str_eq type "noop"
    then ok noop
    else found_or_throw type (inherited type)
