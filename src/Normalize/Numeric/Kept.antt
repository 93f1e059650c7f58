-- ===== src/Normalize/Numeric/Kept.antt =====
-- src/ir_normalize.ts: a normalized feature keeps its id, dependencies, kind and mode.
use trueform.Base.{◌≡◌, refl}
use trueform.Normalize.Selectors.{Normalizing}
use trueform.Normalize.Numeric.{Yields, Yields->>>}
use trueform.Ir.Features.{IntentFeature, base_of}
use trueform.Prepare.Stages.{feature_kind, mode_of}
use trueform.Normalize.Features.{normalize_feature}
use trueform.Normalize.Sketches.{normalize_sketch2d}
use trueform.Normalize.Numeric.Sketches.{normalize_sketch2d_keeps_base}
use trueform.Normalize.Bodies.{
  normalize_datum_plane, normalize_datum_axis, normalize_extrude, normalize_plane,
  normalize_surface, normalize_revolve, normalize_loft, normalize_sweep, normalize_move_body,
  normalize_shell, normalize_pipe, normalize_pipe_sweep, normalize_hex_tube_sweep,
  normalize_datum_frame, normalize_mirror,
}
use trueform.Normalize.Numeric.Bodies.{
  NumericDatumPlane, normalize_datum_plane-Yields, NumericDatumAxis, normalize_datum_axis-Yields,
  NumericExtrude, normalize_extrude-Yields, NumericPlane, normalize_plane-Yields, NumericSurface,
  normalize_surface-Yields, NumericRevolve, normalize_revolve-Yields, NumericLoft,
  normalize_loft-Yields,
}
use trueform.Normalize.Numeric.Solids.{
  NumericSweep, normalize_sweep-Yields, NumericMoveBody, normalize_move_body-Yields, NumericShell,
  normalize_shell-Yields, NumericPipe, normalize_pipe-Yields, NumericPipeSweep,
  normalize_pipe_sweep-Yields, NumericHexTubeSweep, normalize_hex_tube_sweep-Yields,
}
use trueform.Ir.Bodies.{
  DatumPlane, DatumAxis, Extrude, Plane, Surface, Revolve, Loft, Sweep, MoveBody, Shell, Pipe,
  PipeSweep, HexTubeSweep,
}
use trueform.Normalize.Faces.{
  normalize_replace_face, normalize_move_face, normalize_delete_face, normalize_split_body,
  normalize_split_face, normalize_trim_surface, normalize_extend_surface, normalize_knit,
  normalize_draft, normalize_thicken, normalize_unwrap, normalize_thread,
}
use trueform.Normalize.Numeric.Faces.{
  NumericMoveFace, normalize_move_face-Yields, NumericExtendSurface,
  normalize_extend_surface-Yields, NumericKnit, normalize_knit-Yields, NumericDraft,
  normalize_draft-Yields, NumericThicken, normalize_thicken-Yields, NumericThread,
  normalize_thread-Yields,
}
use trueform.Ir.Faces.{MoveFace, ExtendSurface, Knit, Draft, Thicken, Thread}
use trueform.Normalize.Details.{
  normalize_hole, normalize_fillet, normalize_variable_fillet, normalize_chamfer,
  normalize_variable_chamfer, normalize_boolean_op, normalize_pattern_linear,
  normalize_pattern_circular,
}
use trueform.Normalize.Numeric.Details.{
  NumericHole, normalize_hole-Yields, NumericFillet, normalize_fillet-Yields, NumericVariableFillet,
  normalize_variable_fillet-Yields, NumericChamfer, normalize_chamfer-Yields,
  NumericVariableChamfer, normalize_variable_chamfer-Yields, NumericPatternLinear,
  normalize_pattern_linear-Yields, NumericPatternCircular, normalize_pattern_circular-Yields,
}
use trueform.Ir.Details.{
  Hole, Fillet, VariableFillet, Chamfer, VariableChamfer, PatternLinear, PatternCircular,
}

unfoldable pub Keeps : {N : Type 0} → IntentFeature N → IntentFeature N → Type 0
Keeps f g = (base_of g ≡ base_of f) × (feature_kind g ≡ feature_kind f) × (mode_of g ≡ mode_of f)

pub normalize_feature-Keeps :
    {N : Type 0} (c : Normalizing N) (f : IntentFeature N)
    → Yields (Keeps f) (normalize_feature c f)
unfolding Yields Keeps normalize_feature feature_kind mode_of normalize_datum_frame normalize_mirror
    normalize_replace_face normalize_delete_face normalize_split_body normalize_split_face
    normalize_trim_surface normalize_unwrap normalize_boolean_op
normalize_feature-Keeps c (IntentFeature.datum_plane f) =
    Yields->>> (λ (g : DatumPlane _). (g.base ≡ f.base) × NumericDatumPlane g)
      (Keeps (IntentFeature.datum_plane f)) (normalize_datum_plane c f) _
      (normalize_datum_plane-Yields c f) (λ g g_h. (g_h.0, refl, refl))
normalize_feature-Keeps c (IntentFeature.datum_axis f) =
    Yields->>> (λ (g : DatumAxis _). (g.base ≡ f.base) × NumericDatumAxis g)
      (Keeps (IntentFeature.datum_axis f)) (normalize_datum_axis c f) _
      (normalize_datum_axis-Yields c f) (λ g g_h. (g_h.0, refl, refl))
normalize_feature-Keeps c (IntentFeature.datum_frame f) = (refl, refl, refl)
normalize_feature-Keeps c (IntentFeature.sketch2d f) =
    Yields->>> (λ g. g.base ≡ f.base) (Keeps (IntentFeature.sketch2d f)) (normalize_sketch2d c f) _
      (normalize_sketch2d_keeps_base c f) (λ g g_h. (g_h, refl, refl))
normalize_feature-Keeps c (IntentFeature.extrude f) =
    Yields->>> (λ (g : Extrude _). ((g.base ≡ f.base) × (g.mode ≡ f.mode)) × NumericExtrude g)
      (Keeps (IntentFeature.extrude f)) (normalize_extrude c f) _ (normalize_extrude-Yields c f)
      (λ g g_h. (g_h.0.0, refl, g_h.0.1))
normalize_feature-Keeps c (IntentFeature.plane f) =
    Yields->>> (λ (g : Plane _). (g.base ≡ f.base) × NumericPlane g) (Keeps (IntentFeature.plane f))
      (normalize_plane c f) _ (normalize_plane-Yields c f) (λ g g_h. (g_h.0, refl, refl))
normalize_feature-Keeps c (IntentFeature.surface f) =
    Yields->>> (λ (g : Surface _). (g.base ≡ f.base) × NumericSurface g)
      (Keeps (IntentFeature.surface f)) (normalize_surface c f) _ (normalize_surface-Yields c f)
      (λ g g_h. (g_h.0, refl, refl))
normalize_feature-Keeps c (IntentFeature.revolve f) =
    Yields->>> (λ (g : Revolve _). ((g.base ≡ f.base) × (g.mode ≡ f.mode)) × NumericRevolve g)
      (Keeps (IntentFeature.revolve f)) (normalize_revolve c f) _ (normalize_revolve-Yields c f)
      (λ g g_h. (g_h.0.0, refl, g_h.0.1))
normalize_feature-Keeps c (IntentFeature.loft f) =
    Yields->>> (λ (g : Loft _). ((g.base ≡ f.base) × (g.mode ≡ f.mode)) × NumericLoft g)
      (Keeps (IntentFeature.loft f)) (normalize_loft c f) _ (normalize_loft-Yields c f)
      (λ g g_h. (g_h.0.0, refl, g_h.0.1))
normalize_feature-Keeps c (IntentFeature.sweep f) =
    Yields->>> (λ (g : Sweep _). ((g.base ≡ f.base) × (g.mode ≡ f.mode)) × NumericSweep g)
      (Keeps (IntentFeature.sweep f)) (normalize_sweep c f) _ (normalize_sweep-Yields c f)
      (λ g g_h. (g_h.0.0, refl, g_h.0.1))
normalize_feature-Keeps c (IntentFeature.shell f) =
    Yields->>> (λ (g : Shell _). (g.base ≡ f.base) × NumericShell g) (Keeps (IntentFeature.shell f))
      (normalize_shell c f) _ (normalize_shell-Yields c f) (λ g g_h. (g_h.0, refl, refl))
normalize_feature-Keeps c (IntentFeature.pipe f) =
    Yields->>> (λ (g : Pipe _). (g.base ≡ f.base) × NumericPipe g) (Keeps (IntentFeature.pipe f))
      (normalize_pipe c f) _ (normalize_pipe-Yields c f) (λ g g_h. (g_h.0, refl, refl))
normalize_feature-Keeps c (IntentFeature.pipe_sweep f) =
    Yields->>> (λ (g : PipeSweep _). ((g.base ≡ f.base) × (g.mode ≡ f.mode)) × NumericPipeSweep g)
      (Keeps (IntentFeature.pipe_sweep f)) (normalize_pipe_sweep c f) _
      (normalize_pipe_sweep-Yields c f) (λ g g_h. (g_h.0.0, refl, g_h.0.1))
normalize_feature-Keeps c (IntentFeature.hex_tube_sweep f) =
    Yields->>>
      (λ (g : HexTubeSweep _). ((g.base ≡ f.base) × (g.mode ≡ f.mode)) × NumericHexTubeSweep g)
      (Keeps (IntentFeature.hex_tube_sweep f)) (normalize_hex_tube_sweep c f) _
      (normalize_hex_tube_sweep-Yields c f) (λ g g_h. (g_h.0.0, refl, g_h.0.1))
normalize_feature-Keeps c (IntentFeature.mirror f) = (refl, refl, refl)
normalize_feature-Keeps c (IntentFeature.replace_face f) = (refl, refl, refl)
normalize_feature-Keeps c (IntentFeature.move_body f) =
    Yields->>> (λ (g : MoveBody _). (g.base ≡ f.base) × NumericMoveBody g)
      (Keeps (IntentFeature.move_body f)) (normalize_move_body c f) _
      (normalize_move_body-Yields c f) (λ g g_h. (g_h.0, refl, refl))
normalize_feature-Keeps c (IntentFeature.move_face f) =
    Yields->>> (λ (g : MoveFace _). (g.base ≡ f.base) × NumericMoveFace g)
      (Keeps (IntentFeature.move_face f)) (normalize_move_face c f) _
      (normalize_move_face-Yields c f) (λ g g_h. (g_h.0, refl, refl))
normalize_feature-Keeps c (IntentFeature.delete_face f) = (refl, refl, refl)
normalize_feature-Keeps c (IntentFeature.split_body f) = (refl, refl, refl)
normalize_feature-Keeps c (IntentFeature.split_face f) = (refl, refl, refl)
normalize_feature-Keeps c (IntentFeature.trim_surface f) = (refl, refl, refl)
normalize_feature-Keeps c (IntentFeature.extend_surface f) =
    Yields->>> (λ (g : ExtendSurface _). (g.base ≡ f.base) × NumericExtendSurface g)
      (Keeps (IntentFeature.extend_surface f)) (normalize_extend_surface c f) _
      (normalize_extend_surface-Yields c f) (λ g g_h. (g_h.0, refl, refl))
normalize_feature-Keeps c (IntentFeature.knit f) =
    Yields->>> (λ (g : Knit _). (g.base ≡ f.base) × NumericKnit g) (Keeps (IntentFeature.knit f))
      (normalize_knit c f) _ (normalize_knit-Yields c f) (λ g g_h. (g_h.0, refl, refl))
normalize_feature-Keeps c (IntentFeature.curve_intersect f) = (refl, refl, refl)
normalize_feature-Keeps c (IntentFeature.draft f) =
    Yields->>> (λ (g : Draft _). (g.base ≡ f.base) × NumericDraft g) (Keeps (IntentFeature.draft f))
      (normalize_draft c f) _ (normalize_draft-Yields c f) (λ g g_h. (g_h.0, refl, refl))
normalize_feature-Keeps c (IntentFeature.thicken f) =
    Yields->>> (λ (g : Thicken _). (g.base ≡ f.base) × NumericThicken g)
      (Keeps (IntentFeature.thicken f)) (normalize_thicken c f) _ (normalize_thicken-Yields c f)
      (λ g g_h. (g_h.0, refl, refl))
normalize_feature-Keeps c (IntentFeature.unwrap f) = (refl, refl, refl)
normalize_feature-Keeps c (IntentFeature.thread f) =
    Yields->>> (λ (g : Thread _). (g.base ≡ f.base) × NumericThread g)
      (Keeps (IntentFeature.thread f)) (normalize_thread c f) _ (normalize_thread-Yields c f)
      (λ g g_h. (g_h.0, refl, refl))
normalize_feature-Keeps c (IntentFeature.hole f) =
    Yields->>> (λ (g : Hole _). (g.base ≡ f.base) × NumericHole g) (Keeps (IntentFeature.hole f))
      (normalize_hole c f) _ (normalize_hole-Yields c f) (λ g g_h. (g_h.0, refl, refl))
normalize_feature-Keeps c (IntentFeature.fillet f) =
    Yields->>> (λ (g : Fillet _). (g.base ≡ f.base) × NumericFillet g)
      (Keeps (IntentFeature.fillet f)) (normalize_fillet c f) _ (normalize_fillet-Yields c f)
      (λ g g_h. (g_h.0, refl, refl))
normalize_feature-Keeps c (IntentFeature.variable_fillet f) =
    Yields->>> (λ (g : VariableFillet _). (g.base ≡ f.base) × NumericVariableFillet g)
      (Keeps (IntentFeature.variable_fillet f)) (normalize_variable_fillet c f) _
      (normalize_variable_fillet-Yields c f) (λ g g_h. (g_h.0, refl, refl))
normalize_feature-Keeps c (IntentFeature.chamfer f) =
    Yields->>> (λ (g : Chamfer _). (g.base ≡ f.base) × NumericChamfer g)
      (Keeps (IntentFeature.chamfer f)) (normalize_chamfer c f) _ (normalize_chamfer-Yields c f)
      (λ g g_h. (g_h.0, refl, refl))
normalize_feature-Keeps c (IntentFeature.variable_chamfer f) =
    Yields->>> (λ (g : VariableChamfer _). (g.base ≡ f.base) × NumericVariableChamfer g)
      (Keeps (IntentFeature.variable_chamfer f)) (normalize_variable_chamfer c f) _
      (normalize_variable_chamfer-Yields c f) (λ g g_h. (g_h.0, refl, refl))
normalize_feature-Keeps c (IntentFeature.boolean_op f) = (refl, refl, refl)
normalize_feature-Keeps c (IntentFeature.pattern_linear f) =
    Yields->>> (λ (g : PatternLinear _). (g.base ≡ f.base) × NumericPatternLinear g)
      (Keeps (IntentFeature.pattern_linear f)) (normalize_pattern_linear c f) _
      (normalize_pattern_linear-Yields c f) (λ g g_h. (g_h.0, refl, refl))
normalize_feature-Keeps c (IntentFeature.pattern_circular f) =
    Yields->>> (λ (g : PatternCircular _). (g.base ≡ f.base) × NumericPatternCircular g)
      (Keeps (IntentFeature.pattern_circular f)) (normalize_pattern_circular c f) _
      (normalize_pattern_circular-Yields c f) (λ g g_h. (g_h.0, refl, refl))
