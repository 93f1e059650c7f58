-- ===== src/Params/Pure.antt =====
-- src/params.ts: an evaluation that succeeds, as one in the values that it leaves.
use trueform.Base.{◌≡◌, refl, ap, ◌∙◌, false, some, Option-cases, inl, inr, subst}
use trueform.Base.Text.{Str}
use trueform.Base.JsMap.{JsMap, get}
use trueform.Base.Numbers.{Numbers}
use trueform.Base.Outcome.{CompileError, Outcome, ok, err, ◌>>=◌}
use trueform.Ir.Scalars.{LengthUnit, ParamType, Expr, literal, param, binary, neg}
use trueform.Params.Expressions.{
  Run, done, out_of_fuel, ◌>>>◌, ParamValue, ParamEval, eval_literal, apply_binary, eval_expr,
}
use trueform.Params.Context.{Scope, resolve_param}

-- What a run that succeeds has done.
pub >>>-eq-ok {ℓ κ} :
    {B : Type κ} {A : Type ℓ} (run : Run A) (next : A → Run B) {final : B}
    → (run >>> next) ≡ done (ok final)
    → (value : A) × (run ≡ done (ok value)) × (next value ≡ done (ok final))
>>>-eq-ok out_of_fuel next e = cc
>>>-eq-ok (done (err thrown)) next e = cc
>>>-eq-ok (done (ok value)) next e = (value, refl, e)

pub outcome-eq-ok {ℓ κ} :
    {B : Type κ} {A : Type ℓ} (o : Outcome A) (f : A → B) {final : B}
    → done (o >>= λ a. ok (f a)) ≡ done (ok final)
    → (value : A) × (o ≡ ok value) × (f value ≡ final)
outcome-eq-ok (err thrown) f e = cc
outcome-eq-ok (ok value) f e = (value, refl, cc)

pub absurd_error {ℓ κ} :
    {A : Type ℓ} {B : Type κ} {thrown : CompileError} {value : A}
    → done (err thrown) ≡ done (ok value)
    → B
absurd_error e = cc

module _ {N : Type 0} where
  -- The second map has what the first has.
  abbrev pub Grows : JsMap (ParamValue N) → JsMap (ParamValue N) → Type 0
  Grows before after =
      (id : Str) (v : ParamValue N) → get id before ≡ some v → get id after ≡ some v

module _ {N : Type 0} (num : Numbers N) (units : LengthUnit) where
  abbrev pub pure_eval : ParamType → JsMap (ParamValue N) → Expr N → Run (ParamEval N × Unit {0})
  pure_eval expected values e = eval_expr num expected (resolve_param num values) units e tt

  -- A resolver, by what its successes do to the state.
  pub record Resolves (resolve : Str → Scope N → Run (ParamValue N × Scope N))
      (P : Scope N → Type 0) : Type 0 where
    pub grows :
        (id : Str) (s : Scope N) (v : ParamValue N) (t : Scope N)
        → P s
        → resolve id s ≡ done (ok (v, t))
        → Grows s.values t.values
    pub finds :
        (id : Str) (s : Scope N) (v : ParamValue N) (t : Scope N)
        → P s
        → resolve id s ≡ done (ok (v, t))
        → get id t.values ≡ some v
    pub keeps :
        (id : Str) (s : Scope N) (v : ParamValue N) (t : Scope N)
        → P s
        → resolve id s ≡ done (ok (v, t))
        → P t

  resolve_param-some :
      (values : JsMap (ParamValue N)) (id : Str) (v : ParamValue N)
      → get id values ≡ some v
      → resolve_param num values id tt ≡ done (ok (v, tt))
  resolve_param-some values id v e = rw e refl

  resolve_param-eq-ok :
      (values : JsMap (ParamValue N)) (id : Str) (r : ParamValue N × Unit {0})
      → resolve_param num values id tt ≡ done (ok r)
      → get id values ≡ some r.0
  resolve_param-eq-ok values id r e = elim (Option-cases (get id values)) [
    | inl gone ↦ let bad = rw gone at e in absurd_error bad
    | inr hit ↦
        let good = rw hit.1 at e in
        let pair : (hit.0, tt) ≡ r = cc in hit.1 ∙ ap (λ p. some p.0) pair
  ]

  -- An evaluation that succeeds is one in any context that has grown.
  pub pure-Grows :
      (expected : ParamType) (before after : JsMap (ParamValue N)) (e : Expr N)
      (r : ParamEval N × Unit {0})
      → Grows before after
      → pure_eval expected before e ≡ done (ok r)
      → pure_eval expected after e ≡ done (ok r)
  unfolding eval_expr
  pure-Grows expected before after (literal value unit) r g h = h
  pure-Grows expected before after (param id) r g h =
      let (x, ran, final) = >>>-eq-ok (resolve_param num before id tt) _ h in
      rw (resolve_param-some after id x.0 (g id x.0 (resolve_param-eq-ok before id x ran))) final
  pure-Grows expected before after (neg value) r g h =
      let (x, ran, final) = >>>-eq-ok (pure_eval expected before value) _ h in
      rw (pure-Grows expected before after value x g ran) final
  pure-Grows expected before after (binary op left right) r g h =
      let (x, left_ran, rest) = >>>-eq-ok (pure_eval expected before left) _ h in
      let (y, right_ran, final) = >>>-eq-ok (pure_eval expected before right) _ rest in
      rw
        (
          pure-Grows expected before after left x g left_ran,
          pure-Grows expected before after right y g right_ran,
        )
        final

  -- What a run with state has done, as an evaluation in the values it leaves.
  abbrev pub PureAt :
      (Scope N → Type 0) → ParamType → Expr N → Scope N → ParamEval N × Scope N → Type 0
  PureAt P expected e s r =
      Grows s.values r.1.values × P r.1 × (pure_eval expected r.1.values e ≡ done (ok (r.0, tt)))

  module _ (resolve : Str → Scope N → Run (ParamValue N × Scope N)) (P : Scope N → Type 0)
      (spec : Resolves resolve P) where
    pub eval_expr-pure :
        (expected : ParamType) (e : Expr N) (s : Scope N) (r : ParamEval N × Scope N)
        → P s
        → eval_expr num expected resolve units e s ≡ done (ok r)
        → PureAt P expected e s r
    unfolding eval_expr
    eval_expr-pure expected (literal value unit) s r p h =
        let (v, o, same) =
          outcome-eq-ok (eval_literal num value unit expected units) (λ v. (v, s)) h in
        subst (PureAt P expected (literal value unit) s) same ((λ id w q. q), p, rw o refl)
    eval_expr-pure expected (param id) s r p h =
        let (x, ran, final) = >>>-eq-ok (resolve id s) _ h in
        let same : (record { type = x.0.type; value = x.0.value; from_unitless = false }, x.1) ≡ r =
          cc in
        subst (PureAt P expected (param id) s) same (
          spec.grows id s x.0 x.1 p ran,
          spec.keeps id s x.0 x.1 p ran,
          rw (resolve_param-some x.1.values id x.0 (spec.finds id s x.0 x.1 p ran)) refl,
        )
    eval_expr-pure expected (neg value) s r p h =
        let (x, ran, final) = >>>-eq-ok (eval_expr num expected resolve units value s) _ h in
        let same : (record x.0 { value = num.neg x.0.value }, x.1) ≡ r = cc in
        let (g, k, q) = eval_expr-pure expected value s x p ran in
        subst (PureAt P expected (neg value) s) same (g, k, rw q refl)
    eval_expr-pure expected (binary op left right) s r p h =
        let (x, left_ran, rest) = >>>-eq-ok (eval_expr num expected resolve units left s) _ h in
        let (y, right_ran, final) =
          >>>-eq-ok (eval_expr num expected resolve units right x.1) _ rest in
        let (v, o, same) = outcome-eq-ok (apply_binary num op x.0 y.0) (λ v. (v, y.1)) final in
        let (g, k, q) = eval_expr-pure expected left s x p left_ran in
        let (g', k', q') = eval_expr-pure expected right x.1 y k right_ran in
        subst (PureAt P expected (binary op left right) s) same (
          (λ id w f. g' id w (g id w f)),
          k',
          rw (pure-Grows expected x.1.values y.1.values left (x.0, tt) g' q, q', o) refl,
        )
