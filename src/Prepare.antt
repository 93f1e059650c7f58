-- ===== src/Prepare.antt =====
-- src/part_preparation.ts and src/compiler.ts: a normalized part with its graph, order and hashes.
pub mod Stages
pub mod Staged
pub mod Complete
pub mod Builds
pub mod Errors
pub mod Tests
use trueform.Base.{Option, none, some, List, [], ◌∷◌}
use trueform.Base.Text.{Str}
use trueform.Base.JsMap.{JsMap, put, keys}
use trueform.Base.Value.{Fields, obj}
use trueform.Base.Outcome.{Outcome, ok, ◌>>=◌}
use trueform.Ir.Features.{IntentFeature, base_of}
use trueform.Ir.Parts.{IntentPart}
use trueform.Graph.Topo.{Graph, topo_sort_deterministic}
use trueform.Graph.Features.{features_by_id}
use trueform.Graph.Dependencies.{build_dependency_graph}
use trueform.Hash.{hash_value}

pub record PreparedPart (N : Type 0) : Type 0 where
  pub normalized : IntentPart N
  pub graph : Graph
  pub feature_order : List Str
  pub feature_hashes : JsMap Str
  pub feature_by_id : JsMap (IntentFeature N)

pub record CompileResult : Type 0 where
  pub part_id : Str
  pub feature_order : List Str
  pub graph : Graph

-- The hash of an object is a string: its text is not `undefined`.
abbrev pub text_of : Option Str → Str
text_of none = []
text_of (some s) = s

-- `fields_of` gives the own properties of the object that a feature is, and `number_text` is
-- JSON.stringify of a number.
module _ {N : Type 0} (number_text : N → Str) (fields_of : IntentFeature N → Fields N) where
  -- hashFeature
  unfoldable pub hash_feature : IntentFeature N → Str
  unfolding hash_value
  hash_feature feature = text_of (hash_value number_text (obj (fields_of feature)))

  -- The loop of `prepareNormalizedPart`, over its two maps.
  unfoldable pub index_features :
      List (IntentFeature N)
      → JsMap (IntentFeature N)
      → JsMap Str
      → JsMap (IntentFeature N) × JsMap Str
  index_features [] by_id hashes = (by_id, hashes)
  index_features (f ∷ fs) by_id hashes =
      index_features fs (put (base_of f).id f by_id) (put (base_of f).id (hash_feature f) hashes)

  unfoldable pub prepare_normalized_part : IntentPart N → Outcome (PreparedPart N)
  unfolding index_features
  prepare_normalized_part part = build_dependency_graph part.features >>= λ graph.
      topo_sort_deterministic (keys (features_by_id part.features)) graph >>= λ feature_order.
      let (by_id, hashes) = index_features part.features [] [] in
      ok (record {
        normalized = part;
        graph = graph;
        feature_order = feature_order;
        feature_hashes = hashes;
        feature_by_id = by_id;
      })

  unfoldable pub compile_prepared_part : PreparedPart N → CompileResult
  compile_prepared_part part = record {
    part_id = part.normalized.id;
    feature_order = part.feature_order;
    graph = part.graph;
  }

  unfoldable pub compile_normalized_part : IntentPart N → Outcome CompileResult
  unfolding prepare_normalized_part compile_prepared_part
  compile_normalized_part part =
      prepare_normalized_part part >>= λ prepared. ok (compile_prepared_part prepared)
