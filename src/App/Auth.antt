-- ===== src/App/Auth.antt =====
-- apiKeyAuth of packages/server/src/middleware/auth.js, before the routes.
use distributed_job_queue.Base.{
  ℕ, ◌≡◌, refl, sym, ap, ◌⊎◌, inl, inr, String, Bool, true, false, Bool-cases, Option, none, some,
  List, [], ◌∷◌, if◌then◌else◌,
}
use text.Mathlib.Text.{◌==◌ as str_eq}
use text.Mathlib.TextEquality.{eq_iff}
use mathlib.Core.List.{Mem, Memᴰ, mem-cons_of_mem}
use distributed_job_queue.Store.Program.{Result, ok, ret, try_catch}
use distributed_job_queue.Store.Server.{Server, run}
use distributed_job_queue.Routes.Response.{Response, unauthorized, internal_error}
use distributed_job_queue.App.{
  Config, Endpoint, guarded, includes, api_key_auth, guard, handle, rate_limit, dispatch, respond,
}

unlisted : (keys : List String) (key : String) → ¬ Mem key keys → includes keys key ≡ false
unlisted [] key h = refl
unlisted (k ∷ ks) key h = elim (Bool-cases (str_eq k key)) [
  | inl same ↦ absurd (h ∣ Memᴰ.head (sym ((eq_iff k key).0 same)) ∣₁)
  | inr other ↦ rw other (unlisted ks key λ m. h (mem-cons_of_mem k m))
]

-- No key, the empty key, or one that is not among the configured ones.
abbrev pub IsRefused : List String → Option String → Type 0
IsRefused keys header = (key : String) → header ≡ some key → (key ≡ "") ⊎ (¬ Mem key keys)

refused_key :
    (keys : List String) (header : Option String)
    → IsRefused keys header
    → api_key_auth keys header ≡ none
unfolding api_key_auth
refused_key keys none h = refl
refused_key keys (some key) h = elim (h key refl) [
  | inl empty ↦ rw ((eq_iff key "").1 empty) refl
  | inr unknown ↦ rw (unlisted keys key unknown) (if-same (str_eq key "") none)
]
  where
    if-same : (b : Bool) (found : Option String) → (if b then found else found) ≡ found
    if-same true found = refl
    if-same false found = refl

-- Whatever the services are, a request to any route behind the hooks that passes the validation of its
-- schema, which comes before the hooks, but has no valid key is answered 401, and no command has been
-- sent: the services are as they were.
pub respond-unauthorized :
    (srv : Server) (cfg : Config) (header : Option String) (arrived : ℕ) (e : Endpoint)
    (w : srv.World)
    → IsRefused cfg.api_keys header
    → run srv (respond cfg (record { api_key = header; arrived = arrived; target = guarded e })) w
      ≡ (ok (record { code = 401; body = unauthorized }), w)
unfolding respond dispatch guard run
respond-unauthorized srv cfg header arrived e w h = ap after_key (refused_key cfg.api_keys header h)
  where
    after_key : Option String → Result Response × srv.World
    after_key found =
        run srv
          (try_catch
            (elim found [
              | none ↦ ret (record { code = 401; body = unauthorized })
              | some key ↦ rate_limit cfg.rate_limit_per_min key arrived (handle cfg e)
            ])
            (λ x. ret (record { code = 500; body = internal_error })))
          w
