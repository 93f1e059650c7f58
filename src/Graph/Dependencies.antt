-- ===== src/Graph/Dependencies.antt =====
-- src/graph.ts: `buildDependencyGraph`, from the dependencies that each feature states and that its
-- fields imply.
use trueform.Base.{
  Bool, true, false, not, ◌&&◌, Option, none, some, List, [], ◌∷◌, ◌++◌, map, if◌then◌else◌,
}
use trueform.Base.Text.{Str}
use trueform.Base.JsMap.{JsMap, add, has, keys}
use trueform.Base.Outcome.{dep_missing, selector_anchor_missing, Outcome, ok, err, ◌>>=◌, ◌>>◌}
use trueform.Ir.Selectors.{Selector}
use trueform.Ir.Features.{IntentFeature, base_of}
use trueform.Graph.Topo.{Graph, Edge}
use trueform.Graph.Features.{
  truthy, features_by_id, feature_selectors, build_profile_index, build_output_index,
}
use trueform.Graph.Inference.{add_all}
use trueform.Graph.Inference.{
  infer_profile_dependencies, infer_pattern_dependency, infer_datum_dependencies,
}
use trueform.Graph.Selecting.{selector_dependencies}

abbrev pub is_none : List Str → Bool
is_none [] = true
is_none (x ∷ xs) = false

abbrev pub deps_of : Option (List Str) → List Str
deps_of none = []
deps_of (some deps) = deps

abbrev pub add_pattern : Option Str → List Str → List Str
add_pattern none deps = deps
add_pattern (some dep) deps = add dep deps

module _ {N : Type 0} (by_id : JsMap (IntentFeature N)) where
  -- Each explicit dependency is a feature.
  unfoldable pub check_explicit : Str → List Str → Outcome {0} Unit
  check_explicit id [] = ok tt
  check_explicit id (dep ∷ deps) =
      if has dep (keys by_id) then check_explicit id deps else err (dep_missing id dep)

  -- The loop over the selectors; `explicit` tells whether there are explicit dependencies.
  unfoldable pub add_selectors :
      JsMap Str → IntentFeature N → Bool → List Selector → List Str → Outcome (List Str)
  unfolding selector_dependencies
  add_selectors outputs f explicit [] inferred = ok inferred
  add_selectors outputs f explicit (s ∷ ss) inferred =
      selector_dependencies by_id outputs f s >>= λ found.
      if not found.anchored && not explicit
      then err (selector_anchor_missing (base_of f).id)
      else add_selectors outputs f explicit ss (add_all found.deps inferred)

  -- All dependencies of a feature, in the order of their edges.
  unfoldable pub feature_dependencies : JsMap Str → JsMap Str → IntentFeature N → Outcome (List Str)
  unfolding check_explicit add_selectors
  feature_dependencies profiles outputs f =
      let explicit = add_all (deps_of (base_of f).deps) [] in
      check_explicit (base_of f).id explicit
      >> (infer_profile_dependencies by_id f profiles >>= λ by_profile.
          infer_pattern_dependency by_id f >>= λ by_pattern.
          infer_datum_dependencies by_id f >>= λ by_datum.
          add_selectors outputs f (not (is_none explicit)) (feature_selectors f)
            (add_all by_datum (add_pattern (truthy by_pattern) (add_all by_profile [])))
          >>= λ inferred. ok (add_all inferred explicit))

  unfoldable pub feature_edges :
      JsMap Str → JsMap Str → List (IntentFeature N) → List Edge → Outcome (List Edge)
  unfolding feature_dependencies
  feature_edges profiles outputs [] edges = ok edges
  feature_edges profiles outputs (f ∷ fs) edges =
      feature_dependencies profiles outputs f >>= λ deps.
      feature_edges profiles outputs fs
        (edges ++ map (λ dep. record { from = dep; to = (base_of f).id }) deps)

module _ {N : Type 0} where
  unfoldable pub build_dependency_graph : List (IntentFeature N) → Outcome Graph
  unfolding feature_edges
  build_dependency_graph features = build_profile_index features [] >>= λ profiles.
      build_output_index features [] >>= λ outputs.
      feature_edges (features_by_id features) profiles outputs features [] >>= λ edges.
      ok (record { nodes = map (λ f. (base_of f).id) features; edges = edges })
