-- ===== src/Params/Visits.antt =====
-- src/params.ts: what a call of `evalParam` keeps: the values so far solve their definitions.
use trueform.Base.{
  ◌≡◌, refl, sym, ap, ◌∙◌, true, false, none, some, List, ◌++◌, Bool-cases, inl, inr, subst,
}
use trueform.Base.Text.{Str, codes, ◌==◌, ==_iff, ==-self}
use trueform.Base.JsMap.{JsMap, get, put, get-put, has, add, has-add}
use trueform.Base.Numbers.{Numbers}
use trueform.Base.Outcome.{ok}
use trueform.Ir.Scalars.{LengthUnit, Scalar, ParamDef}
use trueform.Params.Expressions.{done, ParamValue, ParamEval, coerce_to_expected}
use trueform.Params.Fuel.{remove-add}
use trueform.Params.Context.{Scope, remove, leave, chosen_expr}
use trueform.Params.Pure.{Grows, pure_eval, pure-Grows}

module _ {N : Type 0} (num : Numbers N) (units : LengthUnit) (defs : JsMap (ParamDef N))
    (overrides : JsMap (Scalar N)) where
  -- The value of a parameter is what its expression has in the context.
  abbrev pub Solves : JsMap (ParamValue N) → Str → ParamDef N → ParamValue N → Type 0
  Solves values id def v =
      (r : ParamEval N) × (pure_eval num units def.type values (chosen_expr (get id overrides) def)
        ≡ done (ok (r, tt)))
      × (w : ParamValue N) × (coerce_to_expected num def.type r (codes "param " ++ id) ≡ ok w)
      × (v ≡ record { type = def.type; value = w.value })

  abbrev pub Solved : Scope N → Type 0
  Solved s =
      (id : Str) (v : ParamValue N)
      → get id s.values ≡ some v
      → (def : ParamDef N) × (get id defs ≡ some def) × Solves s.values id def v

  Solves-Grows :
      (before after : JsMap (ParamValue N)) (id : Str) (def : ParamDef N) (v : ParamValue N)
      → Grows before after
      → Solves before id def v
      → Solves after id def v
  Solves-Grows before after id def v g (r, ran, w, c, e) = (
    r,
    pure-Grows num units def.type before after (chosen_expr (get id overrides) def) (r, tt) g ran,
    w,
    c,
    e,
  )

  -- Between two calls: what is visited, and that it has no value yet.
  pub record Visits (v : List Str) (s : Scope N) : Type 0 where
    pub visiting : s.visiting ≡ v
    pub solved : Solved s
    pub unset : (j : Str) → has j v ≡ true → get j s.values ≡ none

  -- What a call that succeeds has done.
  abbrev pub Found : List Str → Str → Scope N → ParamValue N × Scope N → Type 0
  Found v id s r = Grows s.values r.1.values × (get id r.1.values ≡ some r.0) × Visits v r.1

  put-Grows :
      (id : Str) (x : ParamValue N) (values : JsMap (ParamValue N))
      → get id values ≡ none
      → Grows values (put id x values)
  put-Grows id x values none_yet j u e = elim (Bool-cases (id == j)) [
    | inl same ↦
        let eq = (==_iff id j).0 same in
        let bad : get j values ≡ none = subst (λ k. get k values ≡ none) eq none_yet in cc
    | inr other ↦ get-put id j x values ∙ rw other e
  ]

  get-put_same :
      (id : Str) (x : ParamValue N) (values : JsMap (ParamValue N))
      → get id (put id x values) ≡ some x
  get-put_same id x values = get-put id id x values ∙ rw (==-self id) refl

  get-put_other :
      (id j : Str) (x : ParamValue N) (values : JsMap (ParamValue N))
      → (id == j) ≡ false
      → get j (put id x values) ≡ get j values
  get-put_other id j x values other = get-put id j x values ∙ rw other refl

  pub leave-Found :
      (v : List Str) (id : Str) (def : ParamDef N) (s t : Scope N) (r : ParamEval N)
      (w : ParamValue N)
      → has id v ≡ false
      → get id defs ≡ some def
      → Grows s.values t.values
      → Visits (add id v) t
      → pure_eval num units def.type t.values (chosen_expr (get id overrides) def)
        ≡ done (ok (r, tt))
      → coerce_to_expected num def.type r (codes "param " ++ id) ≡ ok w
      → Found v id s (leave num units defs overrides id def.type w t)
  leave-Found v id def s t r w fresh found g visits ran c =
      let x : ParamValue N = record { type = def.type; value = w.value } in
      let none_yet = visits.unset id (has-add id id v ∙ rw (==-self id) refl) in
      let grown = put-Grows id x t.values none_yet in
      (
        (λ j u e. grown j u (g j u e)),
        get-put_same id x t.values,
        record {
          visiting = ap (remove id) visits.visiting ∙ remove-add id v fresh;
          solved = λ j u e. elim (Bool-cases (id == j)) [
            | inl same ↦
                let eq = (==_iff id j).0 same in
                let value : some x ≡ some u =
                  sym (get-put_same id x t.values)
                  ∙ subst (λ k. get k (put id x t.values) ≡ some u) (sym eq) e in
                let one : x ≡ u = cc in
                subst
                  (λ k. (d : ParamDef N) × (get k defs ≡ some d) × Solves (put id x t.values) k d u)
                  eq
                  (subst
                    (λ y.
                      (d : ParamDef N) × (get id defs ≡ some d) × Solves (put id x t.values) id d y)
                    one
                    (
                      def,
                      found,
                      Solves-Grows t.values (put id x t.values) id def x grown (r, ran, w, c, refl),
                    ))
            | inr other ↦
                let (d, f, sol) =
                  visits.solved j u (sym (get-put_other id j x t.values other) ∙ e) in
                (d, f, Solves-Grows t.values (put id x t.values) j d u grown sol)
          ];
          unset = λ j h. elim (Bool-cases (id == j)) [
            | inl same ↦
                let eq = (==_iff id j).0 same in
                let bad : has j v ≡ false = subst (λ k. has k v ≡ false) eq fresh in cc
            | inr other ↦
                get-put_other id j x t.values other ∙ visits.unset j (has-add id j v ∙ rw other h)
          ];
        },
      )
