-- ===== src/Base/Value.antt =====
-- JavaScript values of type `unknown`, over the type `N` of the numbers.
use trueform.Base.Text.{Str}
use mathlib.Core.Bool.{Bool}
use mathlib.Core.Option.{Option, none, some}

-- `obj` holds the own enumerable properties in their order.
mutual
  pub data Value (N : Type 0) : Type 0 where
    undefined : Value N
    null : Value N
    bool : Bool → Value N
    num : N → Value N
    str : Str → Value N
    arr : Values N → Value N
    obj : Fields N → Value N

  pub data Values (N : Type 0) : Type 0 where
    nil : Values N
    cons : Value N → Values N → Values N

  pub data Fields (N : Type 0) : Type 0 where
    end : Fields N
    field : Str → Value N → Fields N → Fields N

-- `typeof value === "string" ? value : undefined`, of a property that may be missing.
abbrev pub as_string : {N : Type 0} → Option (Value N) → Option Str
as_string (some (str s)) = some s
as_string _ = none
