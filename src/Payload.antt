-- ===== src/Payload.antt =====
-- JSON values, the payloads of jobs, and what the handlers ask of them. Of the numbers, `num n` is
-- n and `neg n` is -(n + 1); fractions are left out.
use Prim.Native.Nat.{ℕ, zero, suc}
use Prim.Native.String.{String}
use mathlib.Core.Bool.{Bool, true, false, not}
use mathlib.Core.Option.{Option, none, some}
use text.Mathlib.Text.{◌==◌}
use distributed_job_queue.Base.{if◌then◌else◌}

mutual
  pub data Json : Type 0 where
    null : Json
    bool : Bool → Json
    num neg : ℕ → Json
    str : String → Json
    arr : Items → Json
    obj : Fields → Json

  pub data Items : Type 0 where
    nil : Items
    cons : Json → Items → Items

  pub data Fields : Type 0 where
    end : Fields
    field : String → Json → Fields → Fields

-- `payload.name`, where `none` is undefined.
abbrev get_field : String → Fields → Option Json
get_field name end = none
get_field name (field k j r) = let rest = get_field name r in if k == name then some j else rest

abbrev pub member : String → Json → Option Json
member name (obj fs) = get_field name fs
member name _ = none

-- Whether JavaScript takes the value for true.
abbrev pub truthy : Option Json → Bool
truthy none = false
truthy (some null) = false
truthy (some (bool b)) = b
truthy (some (num zero)) = false
truthy (some (num (suc n))) = true
truthy (some (neg n)) = true
truthy (some (str s)) = not (s == "")
truthy (some (arr xs)) = true
truthy (some (obj fs)) = true

-- `v === 'name'`.
abbrev pub is_text : String → Option Json → Bool
is_text name (some (str s)) = s == name
is_text name _ = false
