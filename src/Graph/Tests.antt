-- ===== src/Graph/Tests.antt =====
-- src/graph.ts: a sketch, the extrusion of its profile, and a fillet on the body.
use trueform.Base.{ℕ, ◌≤◌, ◌<◌, ◌≡◌, refl, none, List, [], ◌∷◌, map, arith, length, All}
use trueform.Base.Text.{Str, codes, ◌==◌, ==_iff}
use trueform.Base.JsMap.{get, put, has, add, keys}
use trueform.Base.Outcome.{ok, err, profile_missing, selector_anchor_missing}
use trueform.Ir.Scalars.{number, depth}
use trueform.Ir.Selectors.{Selector, selector_face, selector_named, no_rules, pred_planar}
use trueform.Ir.Sketches.{circle, profile_ref}
use trueform.Ir.Bodies.{FeatureBase}
use trueform.Ir.Features.{IntentFeature, base_of, sketch2d, extrude, fillet}
use trueform.Graph.Topo.{Graph, topo_sort_deterministic}
use trueform.Graph.Topo.Counts.{occ}
use trueform.Graph.Features.{
  features_by_id, build_profile_index, build_output_index, feature_selectors,
}
use trueform.Graph.Inference.{
  infer_profile_dependencies, infer_pattern_dependency, infer_datum_dependencies,
}
use trueform.Graph.References.{parse_named_selector_references}
use trueform.Graph.Selecting.{
  named_dependencies, predicate_dependencies, selector_dependencies, rank_dependencies,
  rule_dependencies,
}
use trueform.Graph.Dependencies.{build_dependency_graph}
use trueform.Graph.Join.{IsGraphOf, graph_joins_features, acyclic_part_ordered}

abbrev pub named : Str → FeatureBase
named id = record { id = id; deps = none; tags = none }

abbrev pub sketch : IntentFeature ℕ
sketch = sketch2d (record {
  base = named (codes "s");
  plane = none;
  origin = none;
  entities = none;
  constraints = none;
  profiles = record { name = codes "outline"; profile = circle (number 5) none } ∷ [];
})

abbrev pub body : IntentFeature ℕ
body = extrude (record {
  base = named (codes "ex");
  profile = profile_ref (codes "outline");
  depth = depth (number 3);
  result = codes "body";
  axis = none;
  mode = none;
})

abbrev pub rounded : Selector → IntentFeature ℕ
rounded edges =
    fillet (record { base = named (codes "fil"); edges = edges; radius = number 1; result = none })

abbrev pub features : List (IntentFeature ℕ)
features = rounded (selector_named (codes "body")) ∷ sketch ∷ body ∷ []

abbrev pub part_graph : Graph
part_graph = record {
  nodes = codes "fil" ∷ codes "s" ∷ codes "ex" ∷ [];
  edges =
      record { from = codes "ex"; to = codes "fil" }
      ∷ record { from = codes "s"; to = codes "ex" }
      ∷ [];
}

pub part_built : build_dependency_graph features ≡ ok part_graph
unfolding build_dependency_graph build_profile_index get build_output_index
    infer_profile_dependencies infer_pattern_dependency infer_datum_dependencies feature_selectors
    named_dependencies parse_named_selector_references put ◌==◌ add has
part_built = refl

pub profile_refused :
    build_dependency_graph (body ∷ []) ≡ err (profile_missing (codes "ex") (codes "outline"))
unfolding build_dependency_graph build_profile_index build_output_index get
    infer_profile_dependencies
profile_refused = refl

anchor_refused :
    build_dependency_graph (rounded (selector_face (pred_planar ∷ []) no_rules) ∷ [])
    ≡ err (selector_anchor_missing (codes "fil"))
unfolding build_dependency_graph build_profile_index get build_output_index
    infer_profile_dependencies infer_pattern_dependency infer_datum_dependencies feature_selectors
    predicate_dependencies selector_dependencies rank_dependencies rule_dependencies
anchor_refused = refl

part_ranked : All (λ e. length e.from < length e.to) part_graph.edges
part_ranked = (omega arith, (omega arith, tt))

part_distinct : (t : Str) → occ t (map (λ f. (base_of f).id) features) ≤ 1
unfolding occ
part_distinct t =
    ground (arith, ==_iff (codes "fil") t, ==_iff (codes "s") t, ==_iff (codes "ex") t)

graph_joins_features_example : IsGraphOf features part_graph
graph_joins_features_example = graph_joins_features features part_graph part_built

acyclic_part_ordered_example :
    (order : List Str) × (topo_sort_deterministic (keys (features_by_id features)) part_graph
      ≡ ok order)
acyclic_part_ordered_example =
    acyclic_part_ordered length features part_graph part_built part_ranked part_distinct
