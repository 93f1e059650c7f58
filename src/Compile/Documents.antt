-- ===== src/Compile/Documents.antt =====
-- src/compiler.ts: the parts of a document.
use trueform.Base.{◌≡◌, refl, Option, none, some, List, [], map}
use trueform.Base.Text.{Str}
use trueform.Base.JsMap.{JsMap, get}
use trueform.Base.Value.{Fields}
use trueform.Base.Outcome.{Outcome, ok, err}
use trueform.Ir.Scalars.{Scalar}
use trueform.Ir.Features.{IntentFeature}
use trueform.Ir.Parts.{IntentPart}
use trueform.Ir.Documents.{IntentDocument}
use trueform.Graph.Join.{id_of}
use trueform.Graph.Topo.Counts.{occ}
use trueform.Params.Expressions.{Run, done, out_of_fuel, ◌>>>◌}
use trueform.Normalize.Scalars.{each}
use trueform.Normalize.Parts.{Normalizer, or_else}
use trueform.Normalize.Numeric.{Yields, Yields->>>, Yields-ok}
use trueform.Normalize.Numeric.Scalars.{Any, Yields-Any}
use trueform.Normalize.Corresponding.{Pairs, each-Pairs}
use trueform.Prepare.{CompileResult}
use trueform.Compile.{compile_part}
use trueform.Compile.Orders.{compiled_order_is_of_source}

-- `overrides?.[part.id]`
abbrev pub overrides_of : {N : Type 0} → Option (JsMap (JsMap (Scalar N))) → Str → JsMap (Scalar N)
overrides_of none id = []
overrides_of (some overrides) id = or_else [] (get id overrides)

-- `validate` is `validateDocument` where the options ask for it, and does nothing where they do not.
unfoldable pub compile_document :
    {N : Type 0}
    → (N → Str)
    → (IntentFeature N → Fields N)
    → Normalizer N
    → (IntentDocument N → Outcome (Unit {0}))
    → IntentDocument N
    → Option (JsMap (JsMap (Scalar N)))
    → Run (List CompileResult)
compile_document number_text fields_of z validate doc overrides = done (validate doc) >>> λ _.
    each
      (λ part.
        compile_part number_text fields_of z part (overrides_of overrides part.id)
          (some doc.context.units))
      doc.parts

-- The result is of the part.
abbrev pub IsResultOf : {N : Type 0} → IntentPart N → CompileResult → Type 0
IsResultOf part r =
    (r.part_id ≡ part.id) × ((t : Str) → occ t r.feature_order ≡ occ t (map id_of part.features))

Yields-of_ok :
    {A : Type 0} (P : A → Type 0) (m : Run A) → ((a : A) → m ≡ done (ok a) → P a) → Yields P m
unfolding Yields
Yields-of_ok P (done (ok a)) h = h a refl
Yields-of_ok P (done (err e)) h = tt
Yields-of_ok P out_of_fuel h = tt

-- The results of a document that compiles are those of its parts, in their order: each has the id of
-- its part, and its order lists every id as often as the features of the part have it.
pub document_results_follow_parts :
    {N : Type 0} (number_text : N → Str) (fields_of : IntentFeature N → Fields N) (z : Normalizer N)
    (validate : IntentDocument N → Outcome (Unit {0})) (doc : IntentDocument N)
    (overrides : Option (JsMap (JsMap (Scalar N)))) (results : List CompileResult)
    → compile_document number_text fields_of z validate doc overrides ≡ done (ok results)
    → Pairs IsResultOf doc.parts results
unfolding compile_document
document_results_follow_parts number_text fields_of z validate doc overrides results e =
    Yields-ok (Pairs IsResultOf doc.parts)
      (compile_document number_text fields_of z validate doc overrides) results
      (Yields->>> Any (Pairs IsResultOf doc.parts) (done (validate doc)) _
        (Yields-Any (done (validate doc)))
        (λ u u_h.
          each-Pairs IsResultOf
            (λ part.
              compile_part number_text fields_of z part (overrides_of overrides part.id)
                (some doc.context.units))
            (λ part.
              Yields-of_ok (IsResultOf part)
                (compile_part number_text fields_of z part (overrides_of overrides part.id)
                  (some doc.context.units))
                (compiled_order_is_of_source number_text fields_of z part
                  (overrides_of overrides part.id) (some doc.context.units)))
            doc.parts))
      e
