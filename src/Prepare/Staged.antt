-- ===== src/Prepare/Staged.antt =====
-- src/feature_staging.ts: which forms of features are staged.
use trueform.Base.{◌≡◌, refl, Option, none, some, ◌&&◌, ◌++◌, if◌then◌else◌}
use trueform.Base.Text.{Str, codes, ◌==◌}
use trueform.Base.JsMap.{get, has}
use trueform.Ir.Scalars.{ExtrudeMode, solid, surface}
use trueform.Ir.Features.{IntentFeature}
use trueform.Prepare.Stages.{
  FeatureStage, stable, staging, get_feature_stage, is_surface, staged_features, stage_of_entry,
  surface_mode_feature_kinds,
}

-- The stage by the form of the feature: four kinds, and the surface mode of five others.
abbrev pub stage_of_mode : Option ExtrudeMode → FeatureStage
stage_of_mode (some surface) = staging
stage_of_mode _ = stable

abbrev pub expected_stage : {N : Type 0} → IntentFeature N → FeatureStage
expected_stage (IntentFeature.trim_surface f) = staging
expected_stage (IntentFeature.extend_surface f) = staging
expected_stage (IntentFeature.knit f) = staging
expected_stage (IntentFeature.curve_intersect f) = staging
expected_stage (IntentFeature.extrude f) = stage_of_mode f.mode
expected_stage (IntentFeature.loft f) = stage_of_mode f.mode
expected_stage (IntentFeature.sweep f) = stage_of_mode f.mode
expected_stage (IntentFeature.pipe_sweep f) = stage_of_mode f.mode
expected_stage (IntentFeature.hex_tube_sweep f) = stage_of_mode f.mode
expected_stage _ = stable

-- The stage of a feature of a kind in a mode.
abbrev stage_at : Str → Option ExtrudeMode → FeatureStage
stage_at kind mode =
    let key =
      if has kind surface_mode_feature_kinds && is_surface mode
      then kind ++ codes ":mode.surface"
      else kind in
    (stage_of_entry key (get key staged_features)).stage

stage_at_extrude : (m : Option ExtrudeMode) → stage_at (codes "feature.extrude") m ≡ stage_of_mode m
unfolding get has ◌==◌
stage_at_extrude none = refl
stage_at_extrude (some solid) = refl
stage_at_extrude (some surface) = refl

stage_at_revolve : (m : Option ExtrudeMode) → stage_at (codes "feature.revolve") m ≡ stable
unfolding get has ◌==◌
stage_at_revolve none = refl
stage_at_revolve (some solid) = refl
stage_at_revolve (some surface) = refl

stage_at_loft : (m : Option ExtrudeMode) → stage_at (codes "feature.loft") m ≡ stage_of_mode m
unfolding get has ◌==◌
stage_at_loft none = refl
stage_at_loft (some solid) = refl
stage_at_loft (some surface) = refl

stage_at_sweep : (m : Option ExtrudeMode) → stage_at (codes "feature.sweep") m ≡ stage_of_mode m
unfolding get has ◌==◌
stage_at_sweep none = refl
stage_at_sweep (some solid) = refl
stage_at_sweep (some surface) = refl

stage_at_pipe_sweep :
    (m : Option ExtrudeMode) → stage_at (codes "feature.pipeSweep") m ≡ stage_of_mode m
unfolding get has ◌==◌
stage_at_pipe_sweep none = refl
stage_at_pipe_sweep (some solid) = refl
stage_at_pipe_sweep (some surface) = refl

stage_at_hex_tube_sweep :
    (m : Option ExtrudeMode) → stage_at (codes "feature.hexTubeSweep") m ≡ stage_of_mode m
unfolding get has ◌==◌
stage_at_hex_tube_sweep none = refl
stage_at_hex_tube_sweep (some solid) = refl
stage_at_hex_tube_sweep (some surface) = refl

-- A feature is staged when it trims or extends a surface, knits, intersects curves, or extrudes, lofts
-- or sweeps (also as a pipe or a hexagonal tube) in surface mode. Any other is stable.
pub stage-eq-expected :
    {N : Type 0} (f : IntentFeature N) → (get_feature_stage f).stage ≡ expected_stage f
unfolding get_feature_stage ◌==◌
stage-eq-expected (IntentFeature.datum_plane f) = refl
stage-eq-expected (IntentFeature.datum_axis f) = refl
stage-eq-expected (IntentFeature.datum_frame f) = refl
stage-eq-expected (IntentFeature.sketch2d f) = refl
stage-eq-expected (IntentFeature.extrude f) = stage_at_extrude f.mode
stage-eq-expected (IntentFeature.plane f) = refl
stage-eq-expected (IntentFeature.surface f) = refl
stage-eq-expected (IntentFeature.revolve f) = stage_at_revolve f.mode
stage-eq-expected (IntentFeature.loft f) = stage_at_loft f.mode
stage-eq-expected (IntentFeature.sweep f) = stage_at_sweep f.mode
stage-eq-expected (IntentFeature.shell f) = refl
stage-eq-expected (IntentFeature.pipe f) = refl
stage-eq-expected (IntentFeature.pipe_sweep f) = stage_at_pipe_sweep f.mode
stage-eq-expected (IntentFeature.hex_tube_sweep f) = stage_at_hex_tube_sweep f.mode
stage-eq-expected (IntentFeature.mirror f) = refl
stage-eq-expected (IntentFeature.replace_face f) = refl
stage-eq-expected (IntentFeature.move_body f) = refl
stage-eq-expected (IntentFeature.move_face f) = refl
stage-eq-expected (IntentFeature.delete_face f) = refl
stage-eq-expected (IntentFeature.split_body f) = refl
stage-eq-expected (IntentFeature.split_face f) = refl
stage-eq-expected (IntentFeature.trim_surface f) = refl
stage-eq-expected (IntentFeature.extend_surface f) = refl
stage-eq-expected (IntentFeature.knit f) = refl
stage-eq-expected (IntentFeature.curve_intersect f) = refl
stage-eq-expected (IntentFeature.draft f) = refl
stage-eq-expected (IntentFeature.thicken f) = refl
stage-eq-expected (IntentFeature.unwrap f) = refl
stage-eq-expected (IntentFeature.thread f) = refl
stage-eq-expected (IntentFeature.hole f) = refl
stage-eq-expected (IntentFeature.fillet f) = refl
stage-eq-expected (IntentFeature.variable_fillet f) = refl
stage-eq-expected (IntentFeature.chamfer f) = refl
stage-eq-expected (IntentFeature.variable_chamfer f) = refl
stage-eq-expected (IntentFeature.boolean_op f) = refl
stage-eq-expected (IntentFeature.pattern_linear f) = refl
stage-eq-expected (IntentFeature.pattern_circular f) = refl
