-- ===== src/Params/Tests.antt =====
-- src/params.ts: a width of two inches, and parameters that refer to one another. Numbers are natural
-- numbers here, so 25.4 is rounded down.
use trueform.Base.{
  ℕ, ◌+◌, ◌-◌, ◌*◌, ◌/◌, ◌≡◌, ◌≢◌, refl, true, none, some, [], ◌∷◌, eqb, ltb, min, max,
}
use trueform.Base.Text.{codes, ◌==◌}
use trueform.Base.JsMap.{JsMap, get, put, has, add}
use trueform.Base.Numbers.{Numbers}
use trueform.Base.Outcome.{ok, err, param_cycle}
use trueform.Ir.Scalars.{
  literal, param, binary, plus, ParamDef, length, of_length, inch, mm, Scalar,
}
use trueform.Params.Expressions.{done, out_of_fuel, ParamValue}
use trueform.Params.Context.{build_param_context, collect_defs, remove}
use trueform.Params.Solution.{context_is_fixed_point}
use trueform.Params.Visits.{Solves}
use trueform.Params.Fuel.{context_is_built_or_refused}

abbrev pub naturals : Numbers ℕ
naturals = record {
  zero = 0;
  one = 1;
  nat = λ n. n;
  pi = 3;
  add = λ a b. a + b;
  sub = λ a b. a - b;
  mul = λ a b. a * b;
  div = λ a b. a / b;
  neg = λ a. a;
  equal = eqb;
  less = ltb;
  min = min;
  max = max;
  is_finite = λ a. true;
  sqrt = λ a. a;
}

abbrev width : ParamDef ℕ
width = record { id = codes "w"; type = length; value = literal 2 (some (of_length inch)) }

abbrev height : ParamDef ℕ
height = record {
  id = codes "h";
  type = length;
  value = binary plus (param (codes "w")) (literal 1 none);
}

abbrev left : ParamDef ℕ
left = record { id = codes "l"; type = length; value = param (codes "r") }

abbrev right : ParamDef ℕ
right = record { id = codes "r"; type = length; value = param (codes "l") }

abbrev no_overrides : JsMap (Scalar ℕ)
no_overrides = []

sizes :
    build_param_context naturals (height ∷ width ∷ []) no_overrides mm
    ≡ done (
        ok (
          (codes "w", record { type = length; value = 50 })
          ∷ (codes "h", record { type = length; value = 51 })
          ∷ []))
unfolding build_param_context get put has add ◌==◌ remove
sizes = refl

circle :
    build_param_context naturals (left ∷ right ∷ []) no_overrides mm
    ≡ done (err (param_cycle (codes "l")))
unfolding build_param_context get put has add ◌==◌ remove
circle = refl

context_is_built_or_refused_example :
    build_param_context naturals (left ∷ right ∷ []) no_overrides mm ≢ out_of_fuel
context_is_built_or_refused_example =
    context_is_built_or_refused naturals (left ∷ right ∷ []) no_overrides mm

abbrev values : JsMap (ParamValue ℕ)
values =
    (codes "w", record { type = length; value = 50 })
    ∷ (codes "h", record { type = length; value = 51 })
    ∷ []

abbrev defs : JsMap (ParamDef ℕ)
defs = (codes "h", height) ∷ (codes "w", width) ∷ []

defs_collected : collect_defs (height ∷ width ∷ []) [] ≡ ok defs
unfolding collect_defs put has ◌==◌
defs_collected = refl

height_found : get (codes "h") defs ≡ some height
unfolding get ◌==◌
height_found = refl

context_is_fixed_point_example :
    (v : ParamValue ℕ) × (get (codes "h") values ≡ some v)
    × Solves naturals mm defs no_overrides values (codes "h") height v
context_is_fixed_point_example =
    context_is_fixed_point naturals (height ∷ width ∷ []) no_overrides mm values defs (codes "h")
      height sizes defs_collected height_found
