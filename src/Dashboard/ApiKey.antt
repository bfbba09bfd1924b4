-- ===== src/Dashboard/ApiKey.antt =====
-- ApiKeyField of packages/dashboard/src/App.jsx with getApiKey and setApiKey of
-- packages/dashboard/src/api.js. `stored` is what localStorage holds under jobqueue_api_key.
mod Tests
pub mod Sent
use distributed_job_queue.Base.{ℕ, String, Option, none, some, List, [], ◌∷◌, if◌then◌else◌}
use text.Mathlib.Text.{◌==◌ as str_eq}
use distributed_job_queue.App.{Endpoint, Incoming, guarded}

pub record KeyField : Type 0 where
  pub value : String
  pub stored : Option String

abbrev pub default_key : String
default_key = "dev-key-123"

-- `getItem(…) || 'dev-key-123'`: the empty text is falsy.
abbrev pub get_api_key : Option String → String
get_api_key none = default_key
get_api_key (some key) = if str_eq key "" then default_key else key

abbrev pub open_field : Option String → KeyField
open_field stored = record { value = get_api_key stored; stored = stored }

-- setValue and setApiKey.
abbrev pub on_change : String → KeyField → KeyField
on_change key s = record { value = key; stored = some key }

unfoldable pub type_keys : KeyField → List String → KeyField
type_keys s [] = s
type_keys s (key ∷ keys) = type_keys (on_change key s) keys

-- A request of the pages: the key is read when it is sent.
unfoldable pub send : KeyField → (arrived : ℕ) → Endpoint → Incoming
send s arrived e = record {
  api_key = some (get_api_key s.stored);
  arrived = arrived;
  target = guarded e;
}
