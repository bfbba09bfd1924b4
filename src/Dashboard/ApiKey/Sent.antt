-- ===== src/Dashboard/ApiKey/Sent.antt =====
-- The key that the field shows, and what packages/server/src/middleware/auth.js makes of it.
use distributed_job_queue.Base.{
  ℕ, ◌≡◌, refl, sym, ap, ◌∙◌, String, Bool, true, false, Option, none, some, List, [], ◌∷◌,
  if◌then◌else◌,
}
use text.Mathlib.Text.{◌==◌ as str_eq}
use distributed_job_queue.Store.Program.{Program, ret, try_catch}
use distributed_job_queue.Routes.Response.{Response, unauthorized}
use distributed_job_queue.App.{
  Config, Endpoint, guarded, includes, api_key_auth, rate_limit, handle, guard, dispatch, respond,
}
use distributed_job_queue.Dashboard.Served.{as_500}
use distributed_job_queue.Dashboard.ApiKey.{
  KeyField, default_key, get_api_key, open_field, on_change, type_keys, send,
}

get_api_key-nonempty : (o : Option String) → str_eq (get_api_key o) "" ≡ false
get_api_key-nonempty none = refl
get_api_key-nonempty (some key) = either (str_eq key "") refl
  where
    either : (b : Bool) → str_eq key "" ≡ b → str_eq (if b then default_key else key) "" ≡ false
    either true e = refl
    either false e = e

stored_shown :
    (s : KeyField) (keys : List String)
    → get_api_key s.stored ≡ get_api_key (some s.value)
    → get_api_key (type_keys s keys).stored ≡ get_api_key (some (type_keys s keys).value)
unfolding type_keys
stored_shown s [] h = h
stored_shown s (key ∷ keys) h = stored_shown (on_change key s) keys refl

open_field-shown :
    (stored : Option String) → get_api_key stored ≡ get_api_key (some (open_field stored).value)
open_field-shown stored =
    sym (ap (λ b. if b then default_key else get_api_key stored) (get_api_key-nonempty stored))

abbrev refusal : Response
refusal = record { code = 401; body = unauthorized }

abbrev pub admits : Config → String → (arrived : ℕ) → Endpoint → Program Response
admits cfg key arrived e =
    if includes cfg.api_keys key
    then rate_limit cfg.rate_limit_per_min key arrived (handle cfg e)
    else ret refusal

respond-nonempty :
    (cfg : Config) (key : String) (arrived : ℕ) (e : Endpoint)
    → str_eq key "" ≡ false
    → respond cfg (record { api_key = some key; arrived = arrived; target = guarded e })
      ≡ try_catch (admits cfg key arrived e) as_500
unfolding respond dispatch guard api_key_auth
respond-nonempty cfg key arrived e full =
    ap
      (λ b.
        try_catch
          (checked (if b then none else if includes cfg.api_keys key then some key else none))
          as_500)
      full
    ∙ listed (includes cfg.api_keys key)
  where
    checked : Option String → Program Response
    checked found = elim found [
      | none ↦ ret refusal
      | some k ↦ rate_limit cfg.rate_limit_per_min k arrived (handle cfg e)
    ]

    listed :
        (b : Bool)
        → try_catch (checked (if b then some key else none)) as_500
          ≡ try_catch
              (if b
                then rate_limit cfg.rate_limit_per_min key arrived (handle cfg e)
                else ret refusal)
              as_500
    listed true = refl
    listed false = refl

-- Whatever localStorage held when the page was opened, and whatever has been typed into the field since,
-- a request of the pages that the parser of bodies and its schema let through goes to the rate limiter under the key that the field shows, or under the
-- default key where the field is empty, if that key is a configured one, and is answered 401 if it is
-- not.
pub send-shown :
    (cfg : Config) (stored : Option String) (typed : List String) (arrived : ℕ) (e : Endpoint)
    → let s = type_keys (open_field stored) typed in
      respond cfg (send s arrived e)
      ≡ try_catch (admits cfg (if str_eq s.value "" then default_key else s.value) arrived e) as_500
unfolding send
send-shown cfg stored typed arrived e =
    let s = type_keys (open_field stored) typed in
    respond-nonempty cfg (get_api_key s.stored) arrived e (get_api_key-nonempty s.stored)
    ∙ ap (λ k. try_catch (admits cfg k arrived e) as_500)
        (stored_shown (open_field stored) typed (open_field-shown stored))
