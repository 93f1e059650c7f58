-- ===== src/Params/Expressions.antt =====
-- src/params.ts: the evaluation of an expression in the units of the document, with the check of
-- dimensions. `S` is the state of the function that resolves parameters.
use trueform.Base.{Bool, true, false, not, ◌&&◌, Option, none, some, if◌then◌else◌}
use trueform.Base.Text.{Str, codes}
use trueform.Base.Numbers.{Numbers}
use trueform.Base.Outcome.{
  param_unit_mismatch, param_div_zero, param_type_mismatch, Outcome, ok, err, ◌>>=◌,
}
use trueform.Ir.Scalars.{
  LengthUnit, mm, cm, m, inch, AngleUnit, rad, deg, MeasureUnit, of_length, of_angle, ParamType,
  length, angle, count, BinaryOp, plus, minus, times, over, Expr, literal, param, binary, neg,
}

-- A result, or no result for want of fuel.
pub data Run {ℓ} (A : Type ℓ) : Type ℓ where
  done : Outcome A → Run A
  out_of_fuel : Run A

infixl 5 ◌>>>◌
abbrev pub ◌>>>◌ {ℓ κ} : {A : Type ℓ} {B : Type κ} → Run A → (A → Run B) → Run B
done (ok a) >>> f = f a
done (err e) >>> f = done (err e)
out_of_fuel >>> f = out_of_fuel

pub record ParamValue (N : Type 0) : Type 0 where
  pub type : ParamType
  pub value : N

pub record ParamEval (N : Type 0) : Type 0 where
  pub type : ParamType
  pub value : N
  pub from_unitless : Bool

-- a === b
abbrev pub same_type : ParamType → ParamType → Bool
same_type length length = true
same_type angle angle = true
same_type count count = true
same_type _ _ = false

abbrev pub is_count : ParamType → Bool
is_count count = true
is_count _ = false

unfoldable pub unit_type : MeasureUnit → ParamType
unit_type (of_length u) = length
unit_type (of_angle u) = angle

module _ {N : Type 0} (num : Numbers N) where
  -- LENGTH_TO_MM; 25.4 is the quotient of 254 and 10.
  unfoldable pub length_to_mm : LengthUnit → N
  length_to_mm mm = num.nat 1
  length_to_mm cm = num.nat 10
  length_to_mm m = num.nat 1000
  length_to_mm inch = num.div (num.nat 254) (num.nat 10)

  -- ANGLE_TO_RAD
  unfoldable pub angle_to_rad : AngleUnit → N
  angle_to_rad rad = num.nat 1
  angle_to_rad deg = num.div num.pi (num.nat 180)

  abbrev converted : N → MeasureUnit → N
  converted value (of_length u) = num.mul value (length_to_mm u)
  converted value (of_angle u) = num.mul value (angle_to_rad u)

  abbrev with_unit : N → MeasureUnit → ParamType → Outcome (ParamEval N)
  with_unit value unit expected =
      if not (same_type (unit_type unit) expected) && not (is_count expected)
      then err (param_unit_mismatch expected unit)
      else ok
          (record { type = unit_type unit; value = converted value unit; from_unitless = false })

  abbrev without_unit : N → ParamType → LengthUnit → ParamEval N
  without_unit value length units = record {
    type = length;
    value = num.mul value (length_to_mm units);
    from_unitless = false;
  }
  without_unit value angle units = record { type = angle; value = value; from_unitless = false }
  without_unit value count units = record { type = count; value = value; from_unitless = true }

  unfoldable pub eval_literal :
      N → Option MeasureUnit → ParamType → LengthUnit → Outcome (ParamEval N)
  unfolding unit_type length_to_mm angle_to_rad
  eval_literal value none expected units = ok (without_unit value expected units)
  eval_literal value (some unit) expected units = with_unit value unit expected

  -- The pair `left`, `right` of `coerceUnitlessForAdd`.
  unfoldable pub coerce_unitless_for_add : ParamEval N → ParamEval N → ParamEval N × ParamEval N
  coerce_unitless_for_add left right =
      if same_type left.type right.type
      then (left, right)
      else if left.from_unitless && not (is_count right.type)
      then (record { type = right.type; value = left.value; from_unitless = false }, right)
      else if right.from_unitless && not (is_count left.type)
      then (left, record { type = left.type; value = right.value; from_unitless = false })
      else (left, right)

  -- The type of `multiplyTypes`; its value 0 is replaced by the caller.
  unfoldable pub multiply_types : ParamEval N → ParamEval N → Outcome ParamType
  multiply_types left right =
      if is_count left.type
      then ok right.type
      else if is_count right.type
      then ok left.type
      else err (param_type_mismatch (codes "multiply") left.type right.type)

  unfoldable pub divide_types : ParamEval N → ParamEval N → Outcome ParamType
  divide_types left right =
      if is_count right.type
      then ok left.type
      else err (param_type_mismatch (codes "divide") left.type right.type)

  abbrev add_values : Str → (N → N → N) → ParamEval N × ParamEval N → Outcome (ParamEval N)
  add_values op f (left, right) =
      if same_type left.type right.type
      then ok (record { type = left.type; value = f left.value right.value; from_unitless = false })
      else err (param_type_mismatch op left.type right.type)

  -- `evalBinary` on the values of the operands.
  unfoldable pub apply_binary : BinaryOp → ParamEval N → ParamEval N → Outcome (ParamEval N)
  unfolding coerce_unitless_for_add multiply_types divide_types
  apply_binary plus left right = add_values (codes "+") num.add (coerce_unitless_for_add left right)
  apply_binary minus left right =
      add_values (codes "-") num.sub (coerce_unitless_for_add left right)
  apply_binary times left right = multiply_types left right >>= λ type.
      ok (record { type = type; value = num.mul left.value right.value; from_unitless = false })
  apply_binary over left right =
      if num.equal right.value num.zero
      then err param_div_zero
      else divide_types left right >>= λ type.
          ok (record { type = type; value = num.div left.value right.value; from_unitless = false })

  unfoldable pub eval_expr :
      {S : Type 0}
      → ParamType
      → (Str → S → Run (ParamValue N × S))
      → LengthUnit
      → Expr N
      → S
      → Run (ParamEval N × S)
  unfolding eval_literal apply_binary
  eval_expr expected resolve units (literal value unit) s =
      done (eval_literal value unit expected units >>= λ v. ok (v, s))
  eval_expr expected resolve units (param id) s = resolve id s >>> λ r.
      done (ok (record { type = r.0.type; value = r.0.value; from_unitless = false }, r.1))
  eval_expr expected resolve units (neg value) s = eval_expr expected resolve units value s >>> λ r.
      done (ok (record r.0 { value = num.neg r.0.value }, r.1))
  eval_expr expected resolve units (binary op left right) s =
      eval_expr expected resolve units left s >>> λ l.
      eval_expr expected resolve units right l.1 >>> λ r.
      done (apply_binary op l.0 r.0 >>= λ v. ok (v, r.1))

  -- `label` is the text before the types in the message.
  unfoldable pub coerce_to_expected : ParamType → ParamEval N → Str → Outcome (ParamValue N)
  coerce_to_expected expected v label =
      if same_type v.type expected
      then ok (record { type = v.type; value = v.value })
      else if v.from_unitless && not (is_count expected)
      then ok (record { type = expected; value = v.value })
      else err (param_type_mismatch label expected v.type)
