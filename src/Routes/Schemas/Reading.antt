-- ===== src/Routes/Schemas/Reading.antt =====
-- A value that fits its kind in a schema of packages/server/src/routes is read at that kind's type.
use Prim.Native.String.{count}
use distributed_job_queue.Base.{
  ℕ, ◌≤◌, ◌≡◌, refl, subst, ◌⊎◌, String, Bool, true, false, ◌&&◌, Option, none, some, List, [], ◌∷◌,
  arith, leb, if◌then◌else◌, Option-cases, inl, inr,
}
use text.Mathlib.Text.{◌==◌ as str_eq}
use distributed_job_queue.Payload.{Json, bool, num, str, obj, Fields, member}
use distributed_job_queue.Job.{Priority, high, normal, low}
use distributed_job_queue.Routes.Schemas.{
  Kind, string_of, a_priority, a_status, whole, flag, any_object, Property, Schema, all_fit,
  all_there, nothing_else, fits, fits_there, is_there, conforms,
}
use distributed_job_queue.Routes.Schemas.Requests.{
  as_text, as_number, as_flag, as_object, status_of, as_priority, as_status, optional, ◌>>=◌,
}

pub and_true : (a b : Bool) → (a && b) ≡ true → (a ≡ true) × (b ≡ true)
and_true true true e = (refl, refl)
and_true true false e = cc
and_true false b e = cc

-- A value within the limits of its kind.
abbrev pub IsText : (least most : ℕ) → String → Type 0
IsText least most s = (least ≤ count s) × (count s ≤ most)

abbrev pub IsBetween : (least : ℕ) (most : Option ℕ) → ℕ → Type 0
IsBetween least none n = least ≤ n
IsBetween least (some most) n = (least ≤ n) × (n ≤ most)

abbrev pub IsObject : Json → Type 0
IsObject j = (fs : Fields) × (j ≡ obj fs)

-- A JSON value is read, as a value that satisfies `P`.
abbrev pub Reads : {A : Type 0} → (Json → Option A) → (A → Type 0) → Json → Type 0
Reads {A} f P j = (a : A) × (f j ≡ some a) × P a

abbrev pub Anything : {A : Type 0} → A → Type 0
Anything a = Unit

pub IsText-Reads :
    (least most : ℕ) (j : Json)
    → fits (string_of least (some most)) j ≡ true
    → Reads as_text (IsText least most) j
IsText-Reads least most (str s) e =
    let (a, b) = and_true (leb least (count s)) (leb (count s) most) e in
    (s, refl, (ground (arith, a), ground (arith, b)))
IsText-Reads least most _ e = cc

pub any_string_Reads : (j : Json) → fits (string_of 0 none) j ≡ true → Reads as_text Anything j
any_string_Reads (str s) e = (s, refl, tt)
any_string_Reads _ e = cc

pub number_Reads :
    (least : ℕ) (most : Option ℕ) (j : Json)
    → fits (whole least most) j ≡ true
    → Reads as_number (IsBetween least most) j
number_Reads least none (num n) e = (n, refl, ground (arith, (and_true (leb least n) true e).0))
number_Reads least (some most) (num n) e =
    let (a, b) = and_true (leb least n) (leb n most) e in
    (n, refl, (ground (arith, a), ground (arith, b)))
number_Reads least most _ e = cc

pub flag_Reads : (j : Json) → fits flag j ≡ true → Reads as_flag Anything j
flag_Reads (bool b) e = (b, refl, tt)
flag_Reads _ e = cc

pub IsObject-Reads : (j : Json) → fits any_object j ≡ true → Reads as_object IsObject j
IsObject-Reads (obj fs) e = (obj fs, refl, (fs, refl))
IsObject-Reads _ e = cc

pub priority_Reads : (j : Json) → fits a_priority j ≡ true → Reads as_priority Anything j
priority_Reads (str s) e = by_text (str_eq "high" s) (str_eq "normal" s) (str_eq "low" s) e
  where
    by_text :
        (a b c : Bool)
        → (if a then true else if b then true else if c then true else false) ≡ true
        → (p : Priority) × ((if a
              then some high
              else if b
              then some normal
              else if c
              then some low
              else none)
            ≡ some p)
          × Unit {0}
    by_text true b c e = (high, refl, tt)
    by_text false true c e = (normal, refl, tt)
    by_text false false true e = (low, refl, tt)
    by_text false false false e = cc
priority_Reads _ e = cc

pub status_Reads : (j : Json) → fits a_status j ≡ true → Reads as_status Anything j
status_Reads (str s) e = elim (Option-cases (status_of s)) [
  | inl n ↦ ground (arith, e, n)
  | inr (t, m) ↦ (t, m, tt)
]
status_Reads _ e = cc

module _ {A : Type 0} (kind : Kind) (f : Json → Option A) (P : A → Type 0)
    (reads : (j : Json) → fits kind j ≡ true → Reads f P j) where
  -- A property that may be absent, and one that may not.
  pub optional_Reads :
      (o : Option Json)
      → fits_there kind none o ≡ true
      → (r : Option A) × (optional f o ≡ some r) × ((a : A) → r ≡ some a → P a)
  optional_Reads none e = (none, refl, λ a g. cc)
  optional_Reads (some j) e =
      let (a, g, p) = reads j e in
      (some a, rw g refl, λ b h. let same : a ≡ b = cc in subst P same p)

  pub required_Reads :
      (o : Option Json) (fallback : Option Json)
      → (is_there o ≡ true) ⊎ (is_there fallback ≡ true)
      → fits_there kind fallback o ≡ true
      → (a : A) × ((o >>= f) ≡ some a) × P a
  required_Reads none fallback (inl t) e = cc
  required_Reads none fallback (inr t) e = absurd (ground (arith, t, e))
  required_Reads (some j) fallback t e = reads j e

-- Each property fits, as a tuple.
abbrev pub AllFit : List Property → Json → Type 0
AllFit [] body = Unit {0}
AllFit (p ∷ ps) body = (fits_there p.kind p.fallback (member p.name body) ≡ true) × AllFit ps body

all_fit-AllFit : (ps : List Property) (body : Json) → all_fit ps body ≡ true → AllFit ps body
all_fit-AllFit [] body e = tt
all_fit-AllFit (p ∷ ps) body e =
    let (a, rest) =
      and_true (fits_there p.kind p.fallback (member p.name body)) (all_fit ps body) e in
    (a, all_fit-AllFit ps body rest)

pub conforms-AllFit :
    (s : Schema) (body : Json)
    → conforms s body ≡ true
    → AllFit s.properties body × (all_there s.required body ≡ true)
conforms-AllFit s body e =
    let (fit, rest) =
      and_true (all_fit s.properties body) (all_there s.required body && nothing_else s body) e in
    (
      all_fit-AllFit s.properties body fit,
      (and_true (all_there s.required body) (nothing_else s body) rest).0,
    )
