-- ===== src/Prepare/Stages.antt =====
-- src/feature_staging.ts: which features are still being staged.
use trueform.Base.{Bool, true, false, ◌&&◌, Option, none, some, List, [], ◌∷◌, ◌++◌, if◌then◌else◌}
use trueform.Base.Text.{Str, codes}
use trueform.Base.JsMap.{JsMap, get, has, keys}
use trueform.Ir.Scalars.{ExtrudeMode, surface}
use trueform.Ir.Features.{IntentFeature}
use trueform.Graph.Topo.{sort}

-- `feature.kind`
unfoldable pub feature_kind : {N : Type 0} → IntentFeature N → Str
feature_kind (IntentFeature.datum_plane f) = codes "datum.plane"
feature_kind (IntentFeature.datum_axis f) = codes "datum.axis"
feature_kind (IntentFeature.datum_frame f) = codes "datum.frame"
feature_kind (IntentFeature.sketch2d f) = codes "feature.sketch2d"
feature_kind (IntentFeature.extrude f) = codes "feature.extrude"
feature_kind (IntentFeature.plane f) = codes "feature.plane"
feature_kind (IntentFeature.surface f) = codes "feature.surface"
feature_kind (IntentFeature.revolve f) = codes "feature.revolve"
feature_kind (IntentFeature.loft f) = codes "feature.loft"
feature_kind (IntentFeature.sweep f) = codes "feature.sweep"
feature_kind (IntentFeature.shell f) = codes "feature.shell"
feature_kind (IntentFeature.pipe f) = codes "feature.pipe"
feature_kind (IntentFeature.pipe_sweep f) = codes "feature.pipeSweep"
feature_kind (IntentFeature.hex_tube_sweep f) = codes "feature.hexTubeSweep"
feature_kind (IntentFeature.mirror f) = codes "feature.mirror"
feature_kind (IntentFeature.replace_face f) = codes "feature.replace.face"
feature_kind (IntentFeature.move_body f) = codes "feature.move.body"
feature_kind (IntentFeature.move_face f) = codes "feature.move.face"
feature_kind (IntentFeature.delete_face f) = codes "feature.delete.face"
feature_kind (IntentFeature.split_body f) = codes "feature.split.body"
feature_kind (IntentFeature.split_face f) = codes "feature.split.face"
feature_kind (IntentFeature.trim_surface f) = codes "feature.trim.surface"
feature_kind (IntentFeature.extend_surface f) = codes "feature.extend.surface"
feature_kind (IntentFeature.knit f) = codes "feature.knit"
feature_kind (IntentFeature.curve_intersect f) = codes "feature.curve.intersect"
feature_kind (IntentFeature.draft f) = codes "feature.draft"
feature_kind (IntentFeature.thicken f) = codes "feature.thicken"
feature_kind (IntentFeature.unwrap f) = codes "feature.unwrap"
feature_kind (IntentFeature.thread f) = codes "feature.thread"
feature_kind (IntentFeature.hole f) = codes "feature.hole"
feature_kind (IntentFeature.fillet f) = codes "feature.fillet"
feature_kind (IntentFeature.variable_fillet f) = codes "feature.fillet.variable"
feature_kind (IntentFeature.chamfer f) = codes "feature.chamfer"
feature_kind (IntentFeature.variable_chamfer f) = codes "feature.chamfer.variable"
feature_kind (IntentFeature.boolean_op f) = codes "feature.boolean"
feature_kind (IntentFeature.pattern_linear f) = codes "pattern.linear"
feature_kind (IntentFeature.pattern_circular f) = codes "pattern.circular"

pub data FeatureStage : Type 0 where
  stable staging : FeatureStage

pub record FeatureStageEntry : Type 0 where
  pub stage : FeatureStage
  pub notes : Option Str

abbrev pub surface_mode_feature_kinds : List Str
surface_mode_feature_kinds =
    codes "feature.extrude"
    ∷ codes "feature.revolve"
    ∷ codes "feature.loft"
    ∷ codes "feature.sweep"
    ∷ codes "feature.pipeSweep"
    ∷ codes "feature.hexTubeSweep"
    ∷ []

abbrev pub staged : Str → FeatureStageEntry
staged notes = record { stage = staging; notes = some notes }

-- TF_STAGED_FEATURES
abbrev pub staged_features : JsMap FeatureStageEntry
staged_features =
    (
      codes "feature.trim.surface",
      staged (
          codes
            "Trim surface is staging while keep-side coverage expands beyond the initial deterministic subset."),
    )
    ∷ (
      codes "feature.extend.surface",
      staged (
          codes
            "Extend surface is staging while support expands beyond the initial rectangular planar-face subset."),
    )
    ∷ (
      codes "feature.knit",
      staged (
          codes
            "Knit is staging while stitched-shell promotion and broader topology coverage harden."),
    )
    ∷ (
      codes "feature.curve.intersect",
      staged (
          codes
            "Curve intersect is staging while support expands beyond the initial deterministic section-curve subset."),
    )
    ∷ (
      codes "feature.extrude:mode.surface",
      staged (codes "Surface-mode extrude remains in staging while robustness improves."),
    )
    ∷ (
      codes "feature.loft:mode.surface",
      staged (codes "Surface-mode loft remains in staging while robustness improves."),
    )
    ∷ (
      codes "feature.sweep:mode.surface",
      staged (codes "Surface-mode sweep remains in staging while robustness improves."),
    )
    ∷ (
      codes "feature.pipeSweep:mode.surface",
      staged (codes "Surface-mode pipe sweep remains in staging while robustness improves."),
    )
    ∷ (
      codes "feature.hexTubeSweep:mode.surface",
      staged (codes "Surface-mode hex tube sweep remains in staging while robustness improves."),
    )
    ∷ []

unfoldable pub list_staged_feature_keys : List Str
unfolding sort
list_staged_feature_keys = sort (keys staged_features)

-- `feature.mode`, which is read of a feature of any kind.
unfoldable pub mode_of : {N : Type 0} → IntentFeature N → Option ExtrudeMode
mode_of (IntentFeature.extrude f) = f.mode
mode_of (IntentFeature.revolve f) = f.mode
mode_of (IntentFeature.loft f) = f.mode
mode_of (IntentFeature.sweep f) = f.mode
mode_of (IntentFeature.pipe_sweep f) = f.mode
mode_of (IntentFeature.hex_tube_sweep f) = f.mode
mode_of _ = none

abbrev pub is_surface : Option ExtrudeMode → Bool
is_surface (some surface) = true
is_surface _ = false

unfoldable pub feature_stage_key : {N : Type 0} → IntentFeature N → Str
unfolding feature_kind mode_of has
feature_stage_key feature =
    if has (feature_kind feature) surface_mode_feature_kinds && is_surface (mode_of feature)
    then feature_kind feature ++ codes ":mode.surface"
    else feature_kind feature

pub record StageOfFeature : Type 0 where
  pub key : Str
  pub stage : FeatureStage
  pub notes : Option Str

abbrev pub stage_of_entry : Str → Option FeatureStageEntry → StageOfFeature
stage_of_entry key none = record { key = key; stage = stable; notes = none }
stage_of_entry key (some entry) = record { key = key; stage = entry.stage; notes = entry.notes }

unfoldable pub get_feature_stage : {N : Type 0} → IntentFeature N → StageOfFeature
unfolding feature_stage_key get
get_feature_stage feature =
    let key = feature_stage_key feature in stage_of_entry key (get key staged_features)
