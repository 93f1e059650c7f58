-- ===== src/Params/Solution.antt =====
-- src/params.ts: the values of a context solve the definitions of the parameters.
use trueform.Base.{
  ℕ, zero, suc, ◌≡◌, refl, sym, ap, ◌∙◌, true, false, none, some, List, [], ◌∷◌, ◌++◌, length,
  Bool-cases, Option-cases, inl, inr, subst,
}
use trueform.Base.Text.{Str, codes, ◌==◌, ==_iff}
use trueform.Base.JsMap.{get-has, JsMap, get, keys, has, add, has-add}
use trueform.Base.Numbers.{Numbers}
use trueform.Base.Outcome.{ok}
use trueform.Ir.Scalars.{LengthUnit, Scalar, ParamDef}
use trueform.Params.Expressions.{Run, done, ParamValue, eval_expr, coerce_to_expected}
use trueform.Params.Context.{
  Scope, eval_def, leave, chosen_expr, eval_param, eval_all, build_param_context, collect_defs,
  check_overrides,
}
use trueform.Params.Pure.{>>>-eq-ok, outcome-eq-ok, absurd_error, Grows, Resolves, eval_expr-pure}
use trueform.Params.Visits.{Solves, Visits, Found, leave-Found}

module _ {N : Type 0} (num : Numbers N) (units : LengthUnit) (defs : JsMap (ParamDef N))
    (overrides : JsMap (Scalar N)) where
  eval_def-Found :
      (again : Str → Scope N → Run (ParamValue N × Scope N)) (v : List Str) (id : Str) (s : Scope N)
      (def : ParamDef N) (r : ParamValue N × Scope N)
      → Visits num units defs overrides v s
      → has id s.visiting ≡ false
      → get id s.values ≡ none
      → get id defs ≡ some def
      → Resolves num units again (Visits num units defs overrides (add id v))
      → eval_def num units defs overrides id (some def) again s ≡ done (ok r)
      → Found num units defs overrides v id s r
  eval_def-Found again v id s def r visits first new found spec e =
      let fresh : has id v ≡ false = ap (has id) (sym visits.visiting) ∙ first in
      let entered : Visits num units defs overrides (add id v)
          (record s { visiting = add id s.visiting }) =
        record {
          visiting = ap (add id) visits.visiting;
          solved = visits.solved;
          unset = λ j h. elim (Bool-cases (id == j)) [
            | inl same ↦ subst (λ k. get k s.values ≡ none) ((==_iff id j).0 same) new
            | inr other ↦ visits.unset j (rw other at (sym (has-add id j v) ∙ h))
          ];
        } in
      let (x, ran, final) =
        >>>-eq-ok
          (eval_expr num def.type again units (chosen_expr (get id overrides) def)
            (record s { visiting = add id s.visiting }))
          _ e in
      let (w, c, same) =
        outcome-eq-ok (coerce_to_expected num def.type x.0 (codes "param " ++ id))
          (λ w. leave num units defs overrides id def.type w x.1) final in
      let (g, inside, pure) =
        eval_expr-pure num units again (Visits num units defs overrides (add id v)) spec def.type
          (chosen_expr (get id overrides) def) _ x entered ran in
      subst (Found num units defs overrides v id s) same
        (leave-Found num units defs overrides v id def s x.1 x.0 w fresh found g inside pure c)

  eval_param-Found :
      (fuel : ℕ) (v : List Str) (id : Str) (s : Scope N) (r : ParamValue N × Scope N)
      → Visits num units defs overrides v s
      → eval_param num units defs overrides fuel id s ≡ done (ok r)
      → Found num units defs overrides v id s r
  unfolding eval_param
  eval_param-Found zero v id s r visits e = cc
  eval_param-Found (suc fuel) v id s r visits e =
      let again = eval_param num units defs overrides fuel in
      let spec : Resolves num units again (Visits num units defs overrides (add id v)) = record {
        grows = λ j t x u p q. (eval_param-Found fuel (add id v) j t (x, u) p q).0;
        finds = λ j t x u p q. (eval_param-Found fuel (add id v) j t (x, u) p q).1;
        keeps = λ j t x u p q. (eval_param-Found fuel (add id v) j t (x, u) p q).2;
      } in
      elim (Option-cases (get id s.values)) [
        | inr hit ↦
            let ran = rw hit.1 at e in
            let same : (hit.0, s) ≡ r = cc in
            subst (Found num units defs overrides v id s) same ((λ j u q. q), hit.1, visits)
        | inl new ↦
            let missing = rw new at e in
            elim (Bool-cases (has id s.visiting)) [
              | inl twice ↦ absurd_error (rw twice at missing)
              | inr first ↦
                  let defining = rw first at missing in
                  elim (Option-cases (get id defs)) [
                    | inl unknown ↦ absurd_error (rw unknown at defining)
                    | inr def ↦
                        eval_def-Found again v id s def.0 r visits first new def.1 spec
                          (rw def.1 at defining)
                  ]
            ]
      ]

  eval_all-Found :
      (fuel : ℕ) (ids : List Str) (s t : Scope N)
      → Visits num units defs overrides [] s
      → eval_all num units defs overrides fuel ids s ≡ done (ok t)
      → Grows s.values t.values
        × Visits num units defs overrides [] t
        × ((id : Str) → has id ids ≡ true → (v : ParamValue N) × (get id t.values ≡ some v))
  unfolding eval_all has
  eval_all-Found fuel [] s t visits e =
      let same : s ≡ t = cc in
      subst
        (λ u.
          Grows s.values u.values
          × Visits num units defs overrides [] u
          × ((id : Str) → false ≡ true → (v : ParamValue N) × (get id u.values ≡ some v)))
        same ((λ j u q. q), visits, (λ id h. cc))
  eval_all-Found fuel (i ∷ ids) s t visits e =
      let (x, ran, rest) = >>>-eq-ok (eval_param num units defs overrides fuel i s) _ e in
      let (g, found, inside) = eval_param-Found fuel [] i s x visits ran in
      let (g', ended, all) = eval_all-Found fuel ids x.1 t inside rest in
      (
        (λ j u q. g' j u (g j u q)),
        ended,
        (λ id h. elim (Bool-cases (i == id)) [
          | inl same ↦ (
            x.0,
            g' id x.0 (subst (λ k. get k x.1.values ≡ some x.0) ((==_iff i id).0 same) found),
          )
          | inr other ↦ all id (rw other at h)
        ]),
      )

module _ {N : Type 0} (num : Numbers N) where
  -- In a context that is built each parameter has a value, which is what its expression, the override
  -- if there is one, has when its parameters have their values in the context, in the type of the
  -- parameter: the context solves the definitions, whatever the order in which it was filled.
  pub context_is_fixed_point :
      (params : List (ParamDef N)) (overrides : JsMap (Scalar N)) (units : LengthUnit)
      (values : JsMap (ParamValue N)) (defs : JsMap (ParamDef N)) (id : Str) (def : ParamDef N)
      → build_param_context num params overrides units ≡ done (ok values)
      → collect_defs params [] ≡ ok defs
      → get id defs ≡ some def
      → (v : ParamValue N) × (get id values ≡ some v)
        × Solves num units defs overrides values id def v
  unfolding build_param_context get
  context_is_fixed_point params overrides units values defs id def e collected found =
      let (t, checked, rest) =
        >>>-eq-ok (done (check_overrides (keys overrides) defs)) _ (rw collected at e) in
      let (s, ran, final) =
        >>>-eq-ok
          (eval_all num units defs overrides (suc (length defs)) (keys defs)
            (record { values = []; visiting = [] }))
          _ rest in
      let (g, visits, all) =
        eval_all-Found num units defs overrides (suc (length defs)) (keys defs)
          (record { values = []; visiting = [] }) s
          (record { visiting = refl; solved = λ j u q. cc; unset = λ j h. refl }) ran in
      let same : s.values ≡ values = cc in
      let (v, has_value) = all id (get-has id defs found) in
      let (d, found', solves) = visits.solved id v has_value in
      let one : d ≡ def = cc in
      (
        v,
        subst (λ m. get id m ≡ some v) same has_value,
        subst (λ m. Solves num units defs overrides m id def v) same
            (subst (λ x. Solves num units defs overrides s.values id x v) one solves),
      )
