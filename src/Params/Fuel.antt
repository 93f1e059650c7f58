-- ===== src/Params/Fuel.antt =====
-- src/params.ts: the evaluation of parameters ends, also where they refer to one another in a circle.
use trueform.Base.{
  ℕ, zero, suc, ◌+◌, ◌≤◌, ◌<◌, ◌≡◌, ◌≢◌, inl, inr, refl, sym, ap, ◌∙◌, true, false, some, List, [],
  ◌∷◌, ◌++◌, length, if◌then◌else◌, arith, Bool-cases, Option-cases, subst,
}
use trueform.Base.Text.{Str, codes, ◌==◌, ==_iff, ==-self}
use trueform.Base.JsMap.{get-has, JsMap, get, keys, has, add, has-add}
use trueform.Base.Numbers.{Numbers}
use trueform.Base.Outcome.{Outcome, ok, err, ◌>>=◌}
use trueform.Ir.Scalars.{LengthUnit, ParamType, Expr, literal, param, binary, neg, Scalar, ParamDef}
use trueform.Params.Expressions.{
  Run, done, out_of_fuel, ◌>>>◌, ParamValue, eval_literal, apply_binary, eval_expr,
  coerce_to_expected,
}
use trueform.Params.Context.{
  collect_defs, check_overrides, Scope, remove, eval_def, leave, chosen_expr, eval_param, eval_all,
  build_param_context,
}

-- A run that has a result whose state, if it is a success, satisfies a predicate.
abbrev pub Returns : {A S : Type 0} → (S → Type 0) → Run (A × S) → Type 0
Returns P (done (ok r)) = P r.1
Returns P (done (err e)) = Unit
Returns P out_of_fuel = ⊥

Returns->>> :
    {A B S : Type 0} (P Q : S → Type 0) (m : Run (A × S)) (f : A × S → Run (B × S))
    → Returns P m
    → ((r : A × S) → P r.1 → Returns Q (f r))
    → Returns Q (m >>> f)
Returns->>> P Q (done (ok r)) f h k = k r h
Returns->>> P Q (done (err e)) f h k = tt
Returns->>> P Q out_of_fuel f h k = h

outcome-Returns :
    {A S : Type 0} (P : S → Type 0) (o : Outcome A) (s : S)
    → P s
    → Returns P (done (o >>= λ v. ok (v, s)))
outcome-Returns P (ok v) s p = p
outcome-Returns P (err e) s p = tt

coerced-Returns :
    {A B S : Type 0} (P : S → Type 0) (o : Outcome A) (f : A → B × S)
    → ((a : A) → P (f a).1)
    → Returns P (done (o >>= λ a. ok (f a)))
coerced-Returns P (ok a) f h = h a
coerced-Returns P (err e) f h = tt

module _ {N : Type 0} (num : Numbers N) where
  -- An expression has a result if each of its parameters has one.
  eval_expr-Returns :
      {S : Type 0} (P : S → Type 0) (expected : ParamType)
      (resolve : Str → S → Run (ParamValue N × S)) (units : LengthUnit) (e : Expr N) (s : S)
      → ((id : Str) (t : S) → P t → Returns P (resolve id t))
      → P s
      → Returns P (eval_expr num expected resolve units e s)
  unfolding eval_expr
  eval_expr-Returns P expected resolve units (literal value unit) s all p =
      outcome-Returns P (eval_literal num value unit expected units) s p
  eval_expr-Returns P expected resolve units (param id) s all p =
      Returns->>> P P (resolve id s) _ (all id s p) (λ r q. q)
  eval_expr-Returns P expected resolve units (neg value) s all p =
      Returns->>> P P (eval_expr num expected resolve units value s) _
        (eval_expr-Returns P expected resolve units value s all p) (λ r q. q)
  eval_expr-Returns P expected resolve units (binary op left right) s all p =
      Returns->>> P P (eval_expr num expected resolve units left s) _
        (eval_expr-Returns P expected resolve units left s all p)
        (λ l q.
          Returns->>> P P (eval_expr num expected resolve units right l.1) _
            (eval_expr-Returns P expected resolve units right l.1 all q)
            (λ r w. outcome-Returns P (apply_binary num op l.0 r.0) r.1 w))

remove-snoc : (id : Str) (v : List Str) → has id v ≡ false → remove id (v ++ id ∷ []) ≡ v
unfolding remove has
remove-snoc id [] e = ground (arith, ==-self id)
remove-snoc id (x ∷ v) e = ground (arith, remove-snoc id v)

pub remove-add : (id : Str) (v : List Str) → has id v ≡ false → remove id (add id v) ≡ v
unfolding add
remove-add id v e = rw e (remove-snoc id v e)

abbrev unvisited : Str → List Str → ℕ
unvisited k v = if has k v then 0 else 1

-- How many parameters are left to visit.
abbrev left_to_visit : List Str → List Str → ℕ
left_to_visit [] v = 0
left_to_visit (k ∷ ids) v = unvisited k v + left_to_visit ids v

left-step : (id k : Str) (v : List Str) → unvisited k (add id v) ≤ unvisited k v
left-step id k v = ground (arith, has-add id k v)

left-add-le : (id : Str) (ids v : List Str) → left_to_visit ids (add id v) ≤ left_to_visit ids v
left-add-le id [] v = omega arith
left-add-le id (k ∷ ids) v = omega (arith, left-step id k v, left-add-le id ids v)

here-step : (id : Str) (v : List Str) → has id v ≡ false → unvisited id (add id v) < unvisited id v
here-step id v e = ground (arith, has-add id id v, ==-self id)

left-add :
    (id : Str) (ids v : List Str)
    → has id ids ≡ true
    → has id v ≡ false
    → left_to_visit ids (add id v) < left_to_visit ids v
unfolding has
left-add id [] v h e = cc
left-add id (k ∷ ids) v h e = elim (Bool-cases (k == id)) [
  | inl same ↦
      let eq = (==_iff k id).0 same in
      let first = subst (λ j. unvisited j (add id v) < unvisited j v) (sym eq) (here-step id v e) in
      omega (arith, first, left-add-le id ids v)
  | inr other ↦ omega (arith, left-step id k v, left-add id ids v (rw other at h) e)
]

lt_of_lt : (a b c : ℕ) → a < b → b < suc c → a < c
lt_of_lt a b c h k = omega arith

module _ {N : Type 0} (num : Numbers N) (units : LengthUnit) (defs : JsMap (ParamDef N))
    (overrides : JsMap (Scalar N)) where
  eval_param-Returns :
      (fuel : ℕ) (v : List Str) (id : Str) (s : Scope N)
      → left_to_visit (keys defs) v < fuel
      → s.visiting ≡ v
      → Returns (λ t. t.visiting ≡ v) (eval_param num units defs overrides fuel id s)
  unfolding eval_param
  eval_param-Returns zero v id s h p = omega (arith, h)
  eval_param-Returns (suc fuel) v id s h p =
      let visited : (def : ParamDef N)
          → has id s.visiting ≡ false
          → get id defs ≡ some def
          → Returns (λ t. t.visiting ≡ v)
              (eval_def num units defs overrides id (some def)
                (eval_param num units defs overrides fuel) s) =
        λ def fresh found.
          let unseen : has id v ≡ false = ap (has id) (sym p) ∙ fresh in
          let less =
            lt_of_lt (left_to_visit (keys defs) (add id v)) (left_to_visit (keys defs) v) fuel
              (left-add id (keys defs) v (get-has id defs found) unseen) h in
          Returns->>> (λ t. t.visiting ≡ add id v) (λ t. t.visiting ≡ v)
            (eval_expr num def.type (eval_param num units defs overrides fuel) units
              (chosen_expr (get id overrides) def) (record s { visiting = add id s.visiting }))
            _
            (eval_expr-Returns num (λ t. t.visiting ≡ add id v) def.type
              (eval_param num units defs overrides fuel) units (chosen_expr (get id overrides) def)
              _ (λ j t q. eval_param-Returns fuel (add id v) j t less q) (ap (add id) p))
            (λ r q.
              coerced-Returns (λ t. t.visiting ≡ v)
                (coerce_to_expected num def.type r.0 (codes "param " ++ id))
                (λ w. leave num units defs overrides id def.type w r.1)
                (λ w. ap (remove id) q ∙ remove-add id v unseen)) in
      elim (Option-cases (get id s.values)) [
        | inr hit ↦ rw hit.1 p
        | inl new ↦ rw new (elim (Bool-cases (has id s.visiting)) [
          | inl again ↦ rw again tt
          | inr fresh ↦ rw fresh (elim (Option-cases (get id defs)) [
            | inl unknown ↦ rw unknown tt
            | inr def ↦ rw def.1 (visited def.0 fresh def.1)
          ])
        ])
      ]

pub Returns-ne : {A S : Type 0} (P : S → Type 0) (r : Run (A × S)) → Returns P r → r ≢ out_of_fuel
Returns-ne P r h e = subst (Returns P) e h

left_all : {V : Type 0} (defs : JsMap V) → left_to_visit (keys defs) [] < suc (length defs)
unfolding has
left_all [] = omega arith
left_all (d ∷ defs) = omega (arith, left_all defs)

-- A result, whatever it is.
abbrev IsDone {ℓ} : {A : Type ℓ} → Run A → Type 0
IsDone (done o) = Unit
IsDone out_of_fuel = ⊥

outcome-IsDone {ℓ κ} :
    {A : Type ℓ} {B : Type κ} (o : Outcome A) (f : A → Run B)
    → ((a : A) → IsDone (f a))
    → IsDone (done o >>> f)
outcome-IsDone (ok a) f h = h a
outcome-IsDone (err e) f h = tt

run-IsDone :
    {A S B : Type 0} (P : S → Type 0) (m : Run (A × S)) (f : A × S → Run B)
    → Returns P m
    → ((r : A × S) → P r.1 → IsDone (f r))
    → IsDone (m >>> f)
run-IsDone P (done (ok r)) f h k = k r h
run-IsDone P (done (err e)) f h k = tt
run-IsDone P out_of_fuel f h k = h

only-IsDone :
    {A B : Type 0} (m : Run A) (f : A → Run B)
    → IsDone m
    → ((a : A) → IsDone (f a))
    → IsDone (m >>> f)
only-IsDone (done (ok a)) f h k = k a
only-IsDone (done (err e)) f h k = tt
only-IsDone out_of_fuel f h k = h

module _ {N : Type 0} (num : Numbers N) (units : LengthUnit) (defs : JsMap (ParamDef N))
    (overrides : JsMap (Scalar N)) where
  eval_all-IsDone :
      (fuel : ℕ) (ids : List Str) (s : Scope N)
      → left_to_visit (keys defs) [] < fuel
      → s.visiting ≡ []
      → IsDone (eval_all num units defs overrides fuel ids s)
  unfolding eval_all
  eval_all-IsDone fuel [] s h p = tt
  eval_all-IsDone fuel (id ∷ ids) s h p =
      run-IsDone (λ t. t.visiting ≡ []) (eval_param num units defs overrides fuel id s) _
        (eval_param-Returns num units defs overrides fuel [] id s h p)
        (λ r q. eval_all-IsDone fuel ids r.1 h q)

module _ {N : Type 0} (num : Numbers N) where
  context-IsDone :
      (params : List (ParamDef N)) (overrides : JsMap (Scalar N)) (units : LengthUnit)
      → IsDone (build_param_context num params overrides units)
  unfolding build_param_context
  context-IsDone params overrides units = outcome-IsDone (collect_defs params []) _ (λ defs.
      outcome-IsDone (check_overrides (keys overrides) defs) _ (λ t.
        only-IsDone
          (eval_all num units defs overrides (suc (length defs)) (keys defs)
            (record { values = []; visiting = [] }))
          _
          (eval_all-IsDone num units defs overrides (suc (length defs)) (keys defs) _
            (left_all defs) refl)
          (λ s. tt)))

  -- The evaluation of the parameters of a part ends, with the context or with an error, for all
  -- definitions and overrides: those that refer to one another in a circle are found.
  pub context_is_built_or_refused :
      (params : List (ParamDef N)) (overrides : JsMap (Scalar N)) (units : LengthUnit)
      → build_param_context num params overrides units ≢ out_of_fuel
  context_is_built_or_refused params overrides units e =
      subst IsDone e (context-IsDone params overrides units)
