-- ===== src/Compile/Orders.antt =====
-- src/compiler.ts: the order of a compiled part is of the features of its source.
use trueform.Base.{◌≡◌, refl, sym, ap, ◌∙◌, Option, List, [], ◌∷◌, ◌++◌, true, map, subst}
use trueform.Base.Text.{Str}
use mathlib.Core.List.{Memᴰ}
use trueform.Base.JsMap.{JsMap, keys, has}
use trueform.Base.Value.{Fields}
use trueform.Base.Outcome.{Outcome, ok, err, >>=-eq-ok}
use trueform.Ir.Scalars.{LengthUnit, Scalar}
use trueform.Ir.Features.{IntentFeature, base_of}
use trueform.Ir.Parts.{IntentPart}
use trueform.Graph.Join.{id_of}
use trueform.Graph.Topo.{Edge, topo_sort_deterministic}
use trueform.Graph.Topo.Counts.{occ}
use trueform.Graph.Topo.Order.{order_respects_edges}
use trueform.Graph.Features.{features_by_id}
use trueform.Graph.Dependencies.{build_dependency_graph}
use trueform.Params.Expressions.{Run, done, out_of_fuel, ◌>>>◌}
use trueform.Normalize.Parts.{Normalizer, normalize_part}
use trueform.Normalize.Corresponding.{SameFeatures, normalized_part-SameFeatures}
use trueform.Prepare.{PreparedPart, prepare_normalized_part, CompileResult, compile_prepared_part}
use trueform.Prepare.Complete.{prepared_part-IsComplete}
use trueform.Compile.{prepare_part, compile_part}

-- A result came from a result.
pub >>>-eq-ok :
    {A B : Type 0} (m : Run A) (next : A → Run B) (b : B)
    → (m >>> next) ≡ done (ok b)
    → (a : A) × (m ≡ done (ok a)) × (next a ≡ done (ok b))
>>>-eq-ok (done (ok a)) next b e = (a, refl, e)
>>>-eq-ok (done (err x)) next b e = cc
>>>-eq-ok out_of_fuel next b e = cc

done_injective : {A : Type 0} (x y : Outcome A) → done x ≡ done y → x ≡ y
done_injective x y e = cc

ok_injective : {A : Type 0} (x y : A) → ok x ≡ ok y → x ≡ y
ok_injective x y e = cc

-- The ids of features with the same bases.
map_ids :
    {N : Type 0} (fs : List (IntentFeature N)) → map id_of fs ≡ map (λ b. b.id) (map base_of fs)
map_ids [] = refl
map_ids (f ∷ fs) = ap (λ ids. id_of f ∷ ids) (map_ids fs)

-- The steps that lead to the result of a compilation.
record Stages {N : Type 0} (number_text : N → Str) (fields_of : IntentFeature N → Fields N)
    (part : IntentPart N) (r : CompileResult) : Type 0 where
  normalized : IntentPart N
  prepared : PreparedPart N
  same : SameFeatures part normalized
  ready : prepare_normalized_part number_text fields_of normalized ≡ ok prepared
  compiled : compile_prepared_part number_text fields_of prepared ≡ r

compile_part-Stages :
    {N : Type 0} (number_text : N → Str) (fields_of : IntentFeature N → Fields N) (z : Normalizer N)
    (part : IntentPart N) (overrides : JsMap (Scalar N)) (units : Option LengthUnit)
    (r : CompileResult)
    → compile_part number_text fields_of z part overrides units ≡ done (ok r)
    → Stages number_text fields_of part r
unfolding compile_part prepare_part
compile_part-Stages number_text fields_of z part overrides units r e =
    let (p, prepared, last) =
      >>>-eq-ok (prepare_part number_text fields_of z part overrides units) _ r e in
    let (n, normalized, ready) = >>>-eq-ok (normalize_part z part overrides units) _ p prepared in
    record {
      normalized = n;
      prepared = p;
      same = normalized_part-SameFeatures z part n overrides units normalized;
      ready = done_injective (prepare_normalized_part number_text fields_of n) (ok p) ready;
      compiled =
          ok_injective (compile_prepared_part number_text fields_of p) r
            (done_injective (ok (compile_prepared_part number_text fields_of p)) (ok r) last);
    }

prepared_order-sorts :
    {N : Type 0} (number_text : N → Str) (fields_of : IntentFeature N → Fields N)
    (part : IntentPart N) (p : PreparedPart N)
    → prepare_normalized_part number_text fields_of part ≡ ok p
    → (part ≡ p.normalized)
      × (topo_sort_deterministic (keys (features_by_id part.features)) p.graph ≡ ok p.feature_order)
unfolding prepare_normalized_part
prepared_order-sorts number_text fields_of part p e =
    let (g, built, e') = >>=-eq-ok (build_dependency_graph part.features) _ e in
    let (order, sorted, last) =
      >>=-eq-ok (topo_sort_deterministic (keys (features_by_id part.features)) g) _ e' in
    subst
      (λ o. elim o [
        | ok q ↦
            (part ≡ q.normalized)
            × (topo_sort_deterministic (keys (features_by_id part.features)) q.graph
                ≡ ok q.feature_order)
        | _ ↦ Unit
      ])
      last (refl, sorted)

-- A part that compiles keeps its id, and the order of its features lists every id as often as the
-- features of the source have it.
pub compiled_order_is_of_source :
    {N : Type 0} (number_text : N → Str) (fields_of : IntentFeature N → Fields N) (z : Normalizer N)
    (part : IntentPart N) (overrides : JsMap (Scalar N)) (units : Option LengthUnit)
    (r : CompileResult)
    → compile_part number_text fields_of z part overrides units ≡ done (ok r)
    → (r.part_id ≡ part.id) × ((t : Str) → occ t r.feature_order ≡ occ t (map id_of part.features))
unfolding compile_prepared_part SameFeatures
compiled_order_is_of_source number_text fields_of z part overrides units r e =
    let s = compile_part-Stages number_text fields_of z part overrides units r e in
    let complete = prepared_part-IsComplete number_text fields_of s.normalized s.prepared s.ready in
    let (whole, sorted) =
      prepared_order-sorts number_text fields_of s.normalized s.prepared s.ready in
    let ids : map id_of s.normalized.features ≡ map id_of part.features =
      map_ids s.normalized.features ∙ ap (map (λ b. b.id)) s.same.2 ∙ sym (map_ids part.features) in
    subst
      (λ q.
        (q.part_id ≡ part.id)
        × ((t : Str) → occ t q.feature_order ≡ occ t (map id_of part.features)))
      s.compiled (sym (ap (λ n. n.id) whole) ∙ s.same.0, λ t. complete.0 t ∙ ap (occ t) ids)

-- In the order of a part that compiles, a feature stands after every feature that the graph of the
-- result has an edge from.
pub compiled_order_respects_edges :
    {N : Type 0} (number_text : N → Str) (fields_of : IntentFeature N → Fields N) (z : Normalizer N)
    (part : IntentPart N) (overrides : JsMap (Scalar N)) (units : Option LengthUnit)
    (r : CompileResult) (before after : List Str) (x : Str) (edge : Edge)
    → compile_part number_text fields_of z part overrides units ≡ done (ok r)
    → r.feature_order ≡ before ++ x ∷ after
    → Memᴰ edge r.graph.edges
    → edge.to ≡ x
    → has edge.from before ≡ true
unfolding compile_prepared_part
compiled_order_respects_edges number_text fields_of z part overrides units r before after x edge e
      split m to_x =
    let s = compile_part-Stages number_text fields_of z part overrides units r e in
    let (whole, sorted) =
      prepared_order-sorts number_text fields_of s.normalized s.prepared s.ready in
    order_respects_edges (keys (features_by_id s.normalized.features)) r.graph r.feature_order
      before after x edge
      (subst
        (λ q.
          topo_sort_deterministic (keys (features_by_id s.normalized.features)) q.graph
          ≡ ok q.feature_order)
        s.compiled sorted)
      split m to_x
