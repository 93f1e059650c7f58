-- ===== src/Prepare/Tests.antt =====
-- src/part_preparation.ts, src/compiler.ts and src/feature_staging.ts: the part of three features.
use trueform.Base.{ℕ, ◌≡◌, ◌⊎◌, refl, Option, none, some, List, [], ◌∷◌}
use trueform.Base.Text.{Str, codes, ◌==◌}
use trueform.Base.JsMap.{get, put, has, keys}
use trueform.Base.Value.{Fields, str, end, field}
use trueform.Base.Outcome.{cycle, ok, err, profile_missing}
use trueform.Kernel.{KernelResult}
use trueform.Ir.Features.{IntentFeature, base_of}
use trueform.Ir.Parts.{IntentPart}
use trueform.Ir.Scalars.{ExtrudeMode, surface, full_depth}
use trueform.Ir.Sketches.{profile_ref}
use trueform.Ir.Features.{extrude}
use trueform.Base.Text.{str_lt}
use trueform.Graph.Topo.{
  topo_sort_deterministic, kahn, drain, tally, sort, roots, visit, relax, relax_one, insert_sorted,
  check_features,
}
use trueform.Graph.Features.{features_by_id}
use trueform.Graph.Dependencies.{build_dependency_graph}
use trueform.Graph.Tests.{features, part_graph, part_built, body, profile_refused}
use trueform.Execute.Build.{Attempt, returns, build_part}
use trueform.Prepare.{
  PreparedPart, prepare_normalized_part, compile_normalized_part, index_features,
}
use trueform.Prepare.Stages.{feature_kind, get_feature_stage}
use trueform.Prepare.Staged.{expected_stage, stage-eq-expected}
use trueform.Prepare.Complete.{IsComplete, prepared_part-IsComplete}
use trueform.Prepare.Builds.{NotMissing, prepared_build_finds_features}
use trueform.Prepare.Errors.{compile_fails_on_graph_or_cycle}

abbrev pub digits : ℕ → Str
digits n = codes "0"

abbrev pub fields : IntentFeature ℕ → Fields ℕ
fields f = field (codes "id") (str (base_of f).id) end

abbrev extrude_of : Option ExtrudeMode → IntentFeature ℕ
extrude_of mode = extrude (record {
  base = record { id = codes "e"; deps = none; tags = none };
  profile = profile_ref (codes "outline");
  depth = full_depth;
  result = codes "body";
  axis = none;
  mode = mode;
})

abbrev pub part_of : List (IntentFeature ℕ) → IntentPart ℕ
part_of fs = record {
  id = codes "p";
  features = fs;
  params = none;
  connectors = none;
  datums = none;
  constraints = none;
  cosmetic_threads = none;
  assertions = none;
}

abbrev pub prepared : PreparedPart ℕ
prepared = record {
  normalized = part_of features;
  graph = part_graph;
  feature_order = codes "s" ∷ codes "ex" ∷ codes "fil" ∷ [];
  feature_hashes = (index_features digits fields features [] []).1;
  feature_by_id = (index_features digits fields features [] []).0;
}

part_sorted :
    topo_sort_deterministic (keys (features_by_id features)) part_graph ≡ ok prepared.feature_order
unfolding topo_sort_deterministic features_by_id has ◌==◌ kahn drain tally put sort roots get str_lt
    visit relax relax_one insert_sorted check_features
part_sorted = refl

pub part_prepared : prepare_normalized_part digits fields (part_of features) ≡ ok prepared
unfolding prepare_normalized_part
part_prepared = rw (part_built, part_sorted) refl

body_refused :
    compile_normalized_part digits fields (part_of (body ∷ []))
    ≡ err (profile_missing (codes "ex") (codes "outline"))
unfolding compile_normalized_part
body_refused = rw profile_refused refl

abbrev execute : IntentFeature ℕ → KernelResult ℕ → Attempt ℕ (KernelResult ℕ)
execute f upstream = returns (record { outputs = []; selections = [] })

prepared_part-IsComplete_example : IsComplete digits fields (part_of features) prepared
prepared_part-IsComplete_example =
    prepared_part-IsComplete digits fields (part_of features) prepared part_prepared

prepared_build_finds_features_example : NotMissing (
    build_part feature_kind none execute prepared.normalized.id prepared.feature_order
      prepared.graph prepared.feature_hashes prepared.feature_by_id none)
prepared_build_finds_features_example =
    prepared_build_finds_features feature_kind none execute digits fields (part_of features)
      prepared none part_prepared

compile_fails_on_graph_or_cycle_example :
    (build_dependency_graph (body ∷ []) ≡ err (profile_missing (codes "ex") (codes "outline")))
    ⊎ ((missing : List Str) × (profile_missing (codes "ex") (codes "outline") ≡ cycle missing))
compile_fails_on_graph_or_cycle_example =
    compile_fails_on_graph_or_cycle digits fields (part_of (body ∷ [])) _ body_refused

stage-eq-expected_example :
    (get_feature_stage (extrude_of (some surface))).stage
    ≡ expected_stage (extrude_of (some surface))
stage-eq-expected_example = stage-eq-expected (extrude_of (some surface))
