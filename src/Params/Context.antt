-- ===== src/Params/Context.antt =====
-- src/params.ts: `buildParamContext`, which evaluates each parameter once, on demand, and finds
-- cycles; and `normalizeScalar`. The overrides are their own properties.
use trueform.Base.{length, ℕ, zero, suc, Option, none, some, List, [], ◌∷◌, ◌++◌, if◌then◌else◌}
use trueform.Base.Text.{Str, codes, ◌==◌}
use trueform.Base.JsMap.{JsMap, get, put, keys, has, add}
use trueform.Base.Numbers.{Numbers}
use trueform.Base.Outcome.{
  param_duplicate, param_override_missing, param_cycle, param_missing, Outcome, ok, err, ◌>>=◌,
}
use trueform.Ir.Scalars.{LengthUnit, ParamType, Expr, literal, Scalar, number, expr, ParamDef}
use trueform.Params.Expressions.{
  Run, done, out_of_fuel, ◌>>>◌, ParamValue, eval_expr, coerce_to_expected,
}

-- What `evalParam` reads and writes.
pub record Scope (N : Type 0) : Type 0 where
  pub values : JsMap (ParamValue N)
  pub visiting : List Str

-- visiting.delete(id)
unfoldable pub remove : Str → List Str → List Str
remove id [] = []
remove id (x ∷ xs) = let rest = remove id xs in if x == id then xs else x ∷ rest

module _ {N : Type 0} where
  unfoldable pub collect_defs :
      List (ParamDef N) → JsMap (ParamDef N) → Outcome (JsMap (ParamDef N))
  collect_defs [] defs = ok defs
  collect_defs (p ∷ ps) defs =
      if has p.id (keys defs) then err (param_duplicate p.id) else collect_defs ps (put p.id p defs)

  unfoldable pub check_overrides : List Str → JsMap (ParamDef N) → Outcome {0} Unit
  check_overrides [] defs = ok tt
  check_overrides (key ∷ rest) defs =
      if has key (keys defs) then check_overrides rest defs else err (param_override_missing key)

  abbrev pub scalar_expr : Scalar N → Expr N
  scalar_expr (number value) = literal value none
  scalar_expr (expr e) = e

  abbrev pub chosen_expr : Option (Scalar N) → ParamDef N → Expr N
  chosen_expr none def = def.value
  chosen_expr (some override) def = scalar_expr override

module _ {N : Type 0} (num : Numbers N) (units : LengthUnit) (defs : JsMap (ParamDef N))
    (overrides : JsMap (Scalar N)) where
  abbrev pub leave : Str → ParamType → ParamValue N → Scope N → ParamValue N × Scope N
  leave id type v s =
      let value : ParamValue N = record { type = type; value = v.value } in
      (value, record { values = put id value s.values; visiting = remove id s.visiting })

  abbrev pub eval_def :
      Str
      → Option (ParamDef N)
      → (Str → Scope N → Run (ParamValue N × Scope N))
      → Scope N
      → Run (ParamValue N × Scope N)
  eval_def id none resolve s = done (err (param_missing id))
  eval_def id (some def) resolve s =
      eval_expr num def.type resolve units (chosen_expr (get id overrides) def)
        (record s { visiting = add id s.visiting })
      >>> λ r. done (
          coerce_to_expected num def.type r.0 (codes "param " ++ id) >>= λ v.
          ok (leave id def.type v r.1))

  abbrev pub eval_missing :
      Str
      → Option (ParamValue N)
      → (Str → Scope N → Run (ParamValue N × Scope N))
      → Scope N
      → Run (ParamValue N × Scope N)
  eval_missing id (some cached) resolve s = done (ok (cached, s))
  eval_missing id none resolve s =
      if has id s.visiting then done (err (param_cycle id)) else eval_def id (get id defs) resolve s

  -- evalParam
  unfoldable pub eval_param : ℕ → Str → Scope N → Run (ParamValue N × Scope N)
  unfolding eval_expr coerce_to_expected
  eval_param zero id s = out_of_fuel
  eval_param (suc fuel) id s = eval_missing id (get id s.values) (eval_param fuel) s

  -- for (const id of defs.keys()) evalParam(id);
  unfoldable pub eval_all : ℕ → List Str → Scope N → Run (Scope N)
  unfolding eval_param
  eval_all fuel [] s = done (ok s)
  eval_all fuel (id ∷ ids) s = eval_param fuel id s >>> λ r. eval_all fuel ids r.1

module _ {N : Type 0} (num : Numbers N) where
  -- The values of the context. The fuel is the number of parameters, and one.
  unfoldable pub build_param_context :
      List (ParamDef N) → JsMap (Scalar N) → LengthUnit → Run (JsMap (ParamValue N))
  unfolding collect_defs check_overrides eval_all
  build_param_context params overrides units = done (collect_defs params []) >>> λ defs.
      done (check_overrides (keys overrides) defs) >>> λ _.
      eval_all num units defs overrides (suc (length defs)) (keys defs)
        (record { values = []; visiting = [] })
      >>> λ s. done (ok s.values)

  abbrev pub found_param : Str → Option (ParamValue N) → Run (ParamValue N × Unit {0})
  found_param id none = done (err (param_missing id))
  found_param id (some hit) = done (ok (hit, tt))

  -- resolveParam
  abbrev pub resolve_param : JsMap (ParamValue N) → Str → Unit {0} → Run (ParamValue N × Unit {0})
  resolve_param values id s = found_param id (get id values)

  unfoldable pub normalize_scalar : Scalar N → ParamType → JsMap (ParamValue N) → LengthUnit → Run N
  unfolding eval_expr coerce_to_expected
  normalize_scalar value expected values units =
      eval_expr num expected (resolve_param values) units (scalar_expr value) tt >>> λ r.
      done (coerce_to_expected num expected r.0 (codes "value") >>= λ v. ok v.value)
