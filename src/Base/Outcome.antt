-- ===== src/Base/Outcome.antt =====
-- errors.ts: code that may throw a `CompileError` returns an `Outcome`. A constructor of
-- `CompileError` is an error code with the values that the message shows.
use mathlib.Core.List.{List}
use mathlib.Core.Option.{Option}
use mathlib.Core.Path.{◌≡◌, refl}
use trueform.Base.Text.{Str}
use trueform.Ir.Scalars.{ParamType, MeasureUnit}

pub data CompileError : Type 0 where
  -- src/graph.ts
  cycle : (missing : List Str) → CompileError
  missing_feature : (id : Str) → CompileError
  dep_missing : (feature_id dep : Str) → CompileError
  selector_anchor_missing : (feature_id : Str) → CompileError
  profile_duplicate : (name existing feature_id : Str) → CompileError
  output_duplicate : (result existing feature_id : Str) → CompileError
  profile_missing : (feature_id name : Str) → CompileError
  pattern_missing : (feature_id ref : Str) → CompileError
  datum_plane_missing : (feature_id ref : Str) → CompileError
  datum_axis_missing : (feature_id ref : Str) → CompileError
  selector_legacy_numeric_unsupported : (feature_id name : Str) → CompileError
  selector_named_missing : (feature_id name : Str) → CompileError
  pred_created_by_missing : (feature_id ref : Str) → CompileError
  -- src/params.ts
  param_duplicate : (id : Str) → CompileError
  param_override_missing : (key : Str) → CompileError
  param_cycle : (id : Str) → CompileError
  param_missing : (id : Str) → CompileError
  param_unit_mismatch : (expected : ParamType) (unit : MeasureUnit) → CompileError
  param_div_zero : CompileError
  param_type_mismatch : (action : Str) (left right : ParamType) → CompileError
  -- src/selectors.ts
  selector_empty : CompileError
  selector_empty_after_rank : CompileError
  selector_ambiguous : CompileError
  selector_meta_missing : (key : Str) → CompileError
  named_output_missing : (name : Str) → CompileError
  legacy_numeric_selector : (name : Str) → CompileError
  -- src/ir_normalize.ts
  sketch_constraint_entities_required : (id : Str) → CompileError
  validation_staged_feature :
      (part_id : Str) (details : List (Str × (List Str × Option Str))) → CompileError
  validation_staged_feature_policy : (policy : Str) → CompileError

pub data Outcome {ℓ} (A : Type ℓ) : Type ℓ where
  err : CompileError → Outcome A
  ok : A → Outcome A

-- What stands after a call that may throw.
infixl 5 ◌>>=◌
abbrev pub ◌>>=◌ {ℓ κ} :
    {A : Type ℓ} {B : Type κ} (m : Outcome A) (next : A → Outcome B) → Outcome B
err thrown >>= next = err thrown
ok value >>= next = next value

infixl 5 ◌>>◌
abbrev pub ◌>>◌ {ℓ κ} : {A : Type ℓ} {B : Type κ} (m : Outcome A) (next : Outcome B) → Outcome B
m >> next = m >>= λ value. next

-- A call that succeeds has succeeded before what follows it.
pub >>=-eq-ok {ℓ κ} :
    {B : Type κ} {A : Type ℓ} (call : Outcome A) (next : A → Outcome B) {final : B}
    → (call >>= next) ≡ ok final
    → (value : A) × (call ≡ ok value) × (next value ≡ ok final)
>>=-eq-ok (err thrown) next e = cc
>>=-eq-ok (ok value) next e = (value, refl, e)
