-- ===== src/Normalize/Numeric/Features.antt =====
-- src/ir_normalize.ts: the scalars of a normalized feature are numbers.
use trueform.Base.{◌≡◌}
use trueform.Normalize.Selectors.{Normalizing}
use trueform.Normalize.Numeric.{Yields, Yields->>>}
use trueform.Ir.Features.{IntentFeature}
use trueform.Normalize.Features.{normalize_feature}
use trueform.Normalize.Sketches.{normalize_sketch2d}
use trueform.Normalize.Numeric.Sketches.{SolvesNumbers, NumericSketch2D, normalize_sketch2d-Yields}
use trueform.Normalize.Bodies.{
  normalize_datum_plane, normalize_datum_axis, normalize_extrude, normalize_plane,
  normalize_surface, normalize_revolve, normalize_loft, normalize_sweep, normalize_move_body,
  normalize_shell, normalize_pipe, normalize_pipe_sweep, normalize_hex_tube_sweep,
}
use trueform.Normalize.Numeric.Bodies.{
  NumericDatumPlane, normalize_datum_plane-Yields, NumericDatumAxis, normalize_datum_axis-Yields,
  NumericExtrude, normalize_extrude-Yields, NumericPlane, normalize_plane-Yields, NumericSurface,
  normalize_surface-Yields, NumericRevolve, normalize_revolve-Yields, NumericLoft,
  normalize_loft-Yields,
}
use trueform.Normalize.Numeric.Solids.{
  NumericSweep, normalize_sweep-Yields, NumericMoveBody, normalize_move_body-Yields, NumericShell,
  normalize_shell-Yields, NumericPipe, normalize_pipe-Yields, NumericPipeSweep,
  normalize_pipe_sweep-Yields, NumericHexTubeSweep, normalize_hex_tube_sweep-Yields,
}
use trueform.Ir.Bodies.{
  DatumPlane, DatumAxis, Extrude, Plane, Surface, Revolve, Loft, Sweep, MoveBody, Shell, Pipe,
  PipeSweep, HexTubeSweep,
}
use trueform.Normalize.Faces.{
  normalize_move_face, normalize_extend_surface, normalize_knit, normalize_draft, normalize_thicken,
  normalize_thread,
}
use trueform.Normalize.Numeric.Faces.{
  NumericMoveFace, normalize_move_face-Yields, NumericExtendSurface,
  normalize_extend_surface-Yields, NumericKnit, normalize_knit-Yields, NumericDraft,
  normalize_draft-Yields, NumericThicken, normalize_thicken-Yields, NumericThread,
  normalize_thread-Yields,
}
use trueform.Ir.Faces.{MoveFace, ExtendSurface, Knit, Draft, Thicken, Thread}
use trueform.Normalize.Details.{
  normalize_hole, normalize_fillet, normalize_variable_fillet, normalize_chamfer,
  normalize_variable_chamfer, normalize_pattern_linear, normalize_pattern_circular,
}
use trueform.Normalize.Numeric.Details.{
  NumericHole, normalize_hole-Yields, NumericFillet, normalize_fillet-Yields, NumericVariableFillet,
  normalize_variable_fillet-Yields, NumericChamfer, normalize_chamfer-Yields,
  NumericVariableChamfer, normalize_variable_chamfer-Yields, NumericPatternLinear,
  normalize_pattern_linear-Yields, NumericPatternCircular, normalize_pattern_circular-Yields,
}
use trueform.Ir.Details.{
  Hole, Fillet, VariableFillet, Chamfer, VariableChamfer, PatternLinear, PatternCircular,
}

unfoldable pub IsNumeric : {N : Type 0} → IntentFeature N → Type 0
IsNumeric (IntentFeature.datum_plane f) = NumericDatumPlane f
IsNumeric (IntentFeature.datum_axis f) = NumericDatumAxis f
IsNumeric (IntentFeature.datum_frame f) = Unit
IsNumeric (IntentFeature.sketch2d f) = NumericSketch2D f
IsNumeric (IntentFeature.extrude f) = NumericExtrude f
IsNumeric (IntentFeature.plane f) = NumericPlane f
IsNumeric (IntentFeature.surface f) = NumericSurface f
IsNumeric (IntentFeature.revolve f) = NumericRevolve f
IsNumeric (IntentFeature.loft f) = NumericLoft f
IsNumeric (IntentFeature.sweep f) = NumericSweep f
IsNumeric (IntentFeature.shell f) = NumericShell f
IsNumeric (IntentFeature.pipe f) = NumericPipe f
IsNumeric (IntentFeature.pipe_sweep f) = NumericPipeSweep f
IsNumeric (IntentFeature.hex_tube_sweep f) = NumericHexTubeSweep f
IsNumeric (IntentFeature.mirror f) = Unit
IsNumeric (IntentFeature.replace_face f) = Unit
IsNumeric (IntentFeature.move_body f) = NumericMoveBody f
IsNumeric (IntentFeature.move_face f) = NumericMoveFace f
IsNumeric (IntentFeature.delete_face f) = Unit
IsNumeric (IntentFeature.split_body f) = Unit
IsNumeric (IntentFeature.split_face f) = Unit
IsNumeric (IntentFeature.trim_surface f) = Unit
IsNumeric (IntentFeature.extend_surface f) = NumericExtendSurface f
IsNumeric (IntentFeature.knit f) = NumericKnit f
IsNumeric (IntentFeature.curve_intersect f) = Unit
IsNumeric (IntentFeature.draft f) = NumericDraft f
IsNumeric (IntentFeature.thicken f) = NumericThicken f
IsNumeric (IntentFeature.unwrap f) = Unit
IsNumeric (IntentFeature.thread f) = NumericThread f
IsNumeric (IntentFeature.hole f) = NumericHole f
IsNumeric (IntentFeature.fillet f) = NumericFillet f
IsNumeric (IntentFeature.variable_fillet f) = NumericVariableFillet f
IsNumeric (IntentFeature.chamfer f) = NumericChamfer f
IsNumeric (IntentFeature.variable_chamfer f) = NumericVariableChamfer f
IsNumeric (IntentFeature.boolean_op f) = Unit
IsNumeric (IntentFeature.pattern_linear f) = NumericPatternLinear f
IsNumeric (IntentFeature.pattern_circular f) = NumericPatternCircular f

pub normalize_feature-IsNumeric :
    {N : Type 0} (c : Normalizing N) (f : IntentFeature N)
    → SolvesNumbers c
    → Yields IsNumeric (normalize_feature c f)
unfolding Yields IsNumeric normalize_feature
normalize_feature-IsNumeric c (IntentFeature.datum_plane f) solves =
    Yields->>> (λ (g : DatumPlane _). (g.base ≡ f.base) × NumericDatumPlane g) IsNumeric
      (normalize_datum_plane c f) _ (normalize_datum_plane-Yields c f) (λ g g_h. g_h.1)
normalize_feature-IsNumeric c (IntentFeature.datum_axis f) solves =
    Yields->>> (λ (g : DatumAxis _). (g.base ≡ f.base) × NumericDatumAxis g) IsNumeric
      (normalize_datum_axis c f) _ (normalize_datum_axis-Yields c f) (λ g g_h. g_h.1)
normalize_feature-IsNumeric c (IntentFeature.datum_frame f) solves = tt
normalize_feature-IsNumeric c (IntentFeature.sketch2d f) solves =
    Yields->>> NumericSketch2D IsNumeric (normalize_sketch2d c f) _
      (normalize_sketch2d-Yields c f solves) (λ g g_h. g_h)
normalize_feature-IsNumeric c (IntentFeature.extrude f) solves =
    Yields->>> (λ (g : Extrude _). ((g.base ≡ f.base) × (g.mode ≡ f.mode)) × NumericExtrude g)
      IsNumeric (normalize_extrude c f) _ (normalize_extrude-Yields c f) (λ g g_h. g_h.1)
normalize_feature-IsNumeric c (IntentFeature.plane f) solves =
    Yields->>> (λ (g : Plane _). (g.base ≡ f.base) × NumericPlane g) IsNumeric (normalize_plane c f)
      _ (normalize_plane-Yields c f) (λ g g_h. g_h.1)
normalize_feature-IsNumeric c (IntentFeature.surface f) solves =
    Yields->>> (λ (g : Surface _). (g.base ≡ f.base) × NumericSurface g) IsNumeric
      (normalize_surface c f) _ (normalize_surface-Yields c f) (λ g g_h. g_h.1)
normalize_feature-IsNumeric c (IntentFeature.revolve f) solves =
    Yields->>> (λ (g : Revolve _). ((g.base ≡ f.base) × (g.mode ≡ f.mode)) × NumericRevolve g)
      IsNumeric (normalize_revolve c f) _ (normalize_revolve-Yields c f) (λ g g_h. g_h.1)
normalize_feature-IsNumeric c (IntentFeature.loft f) solves =
    Yields->>> (λ (g : Loft _). ((g.base ≡ f.base) × (g.mode ≡ f.mode)) × NumericLoft g) IsNumeric
      (normalize_loft c f) _ (normalize_loft-Yields c f) (λ g g_h. g_h.1)
normalize_feature-IsNumeric c (IntentFeature.sweep f) solves =
    Yields->>> (λ (g : Sweep _). ((g.base ≡ f.base) × (g.mode ≡ f.mode)) × NumericSweep g) IsNumeric
      (normalize_sweep c f) _ (normalize_sweep-Yields c f) (λ g g_h. g_h.1)
normalize_feature-IsNumeric c (IntentFeature.shell f) solves =
    Yields->>> (λ (g : Shell _). (g.base ≡ f.base) × NumericShell g) IsNumeric (normalize_shell c f)
      _ (normalize_shell-Yields c f) (λ g g_h. g_h.1)
normalize_feature-IsNumeric c (IntentFeature.pipe f) solves =
    Yields->>> (λ (g : Pipe _). (g.base ≡ f.base) × NumericPipe g) IsNumeric (normalize_pipe c f) _
      (normalize_pipe-Yields c f) (λ g g_h. g_h.1)
normalize_feature-IsNumeric c (IntentFeature.pipe_sweep f) solves =
    Yields->>> (λ (g : PipeSweep _). ((g.base ≡ f.base) × (g.mode ≡ f.mode)) × NumericPipeSweep g)
      IsNumeric (normalize_pipe_sweep c f) _ (normalize_pipe_sweep-Yields c f) (λ g g_h. g_h.1)
normalize_feature-IsNumeric c (IntentFeature.hex_tube_sweep f) solves =
    Yields->>>
      (λ (g : HexTubeSweep _). ((g.base ≡ f.base) × (g.mode ≡ f.mode)) × NumericHexTubeSweep g)
      IsNumeric (normalize_hex_tube_sweep c f) _ (normalize_hex_tube_sweep-Yields c f)
      (λ g g_h. g_h.1)
normalize_feature-IsNumeric c (IntentFeature.mirror f) solves = tt
normalize_feature-IsNumeric c (IntentFeature.replace_face f) solves = tt
normalize_feature-IsNumeric c (IntentFeature.move_body f) solves =
    Yields->>> (λ (g : MoveBody _). (g.base ≡ f.base) × NumericMoveBody g) IsNumeric
      (normalize_move_body c f) _ (normalize_move_body-Yields c f) (λ g g_h. g_h.1)
normalize_feature-IsNumeric c (IntentFeature.move_face f) solves =
    Yields->>> (λ (g : MoveFace _). (g.base ≡ f.base) × NumericMoveFace g) IsNumeric
      (normalize_move_face c f) _ (normalize_move_face-Yields c f) (λ g g_h. g_h.1)
normalize_feature-IsNumeric c (IntentFeature.delete_face f) solves = tt
normalize_feature-IsNumeric c (IntentFeature.split_body f) solves = tt
normalize_feature-IsNumeric c (IntentFeature.split_face f) solves = tt
normalize_feature-IsNumeric c (IntentFeature.trim_surface f) solves = tt
normalize_feature-IsNumeric c (IntentFeature.extend_surface f) solves =
    Yields->>> (λ (g : ExtendSurface _). (g.base ≡ f.base) × NumericExtendSurface g) IsNumeric
      (normalize_extend_surface c f) _ (normalize_extend_surface-Yields c f) (λ g g_h. g_h.1)
normalize_feature-IsNumeric c (IntentFeature.knit f) solves =
    Yields->>> (λ (g : Knit _). (g.base ≡ f.base) × NumericKnit g) IsNumeric (normalize_knit c f) _
      (normalize_knit-Yields c f) (λ g g_h. g_h.1)
normalize_feature-IsNumeric c (IntentFeature.curve_intersect f) solves = tt
normalize_feature-IsNumeric c (IntentFeature.draft f) solves =
    Yields->>> (λ (g : Draft _). (g.base ≡ f.base) × NumericDraft g) IsNumeric (normalize_draft c f)
      _ (normalize_draft-Yields c f) (λ g g_h. g_h.1)
normalize_feature-IsNumeric c (IntentFeature.thicken f) solves =
    Yields->>> (λ (g : Thicken _). (g.base ≡ f.base) × NumericThicken g) IsNumeric
      (normalize_thicken c f) _ (normalize_thicken-Yields c f) (λ g g_h. g_h.1)
normalize_feature-IsNumeric c (IntentFeature.unwrap f) solves = tt
normalize_feature-IsNumeric c (IntentFeature.thread f) solves =
    Yields->>> (λ (g : Thread _). (g.base ≡ f.base) × NumericThread g) IsNumeric
      (normalize_thread c f) _ (normalize_thread-Yields c f) (λ g g_h. g_h.1)
normalize_feature-IsNumeric c (IntentFeature.hole f) solves =
    Yields->>> (λ (g : Hole _). (g.base ≡ f.base) × NumericHole g) IsNumeric (normalize_hole c f) _
      (normalize_hole-Yields c f) (λ g g_h. g_h.1)
normalize_feature-IsNumeric c (IntentFeature.fillet f) solves =
    Yields->>> (λ (g : Fillet _). (g.base ≡ f.base) × NumericFillet g) IsNumeric
      (normalize_fillet c f) _ (normalize_fillet-Yields c f) (λ g g_h. g_h.1)
normalize_feature-IsNumeric c (IntentFeature.variable_fillet f) solves =
    Yields->>> (λ (g : VariableFillet _). (g.base ≡ f.base) × NumericVariableFillet g) IsNumeric
      (normalize_variable_fillet c f) _ (normalize_variable_fillet-Yields c f) (λ g g_h. g_h.1)
normalize_feature-IsNumeric c (IntentFeature.chamfer f) solves =
    Yields->>> (λ (g : Chamfer _). (g.base ≡ f.base) × NumericChamfer g) IsNumeric
      (normalize_chamfer c f) _ (normalize_chamfer-Yields c f) (λ g g_h. g_h.1)
normalize_feature-IsNumeric c (IntentFeature.variable_chamfer f) solves =
    Yields->>> (λ (g : VariableChamfer _). (g.base ≡ f.base) × NumericVariableChamfer g) IsNumeric
      (normalize_variable_chamfer c f) _ (normalize_variable_chamfer-Yields c f) (λ g g_h. g_h.1)
normalize_feature-IsNumeric c (IntentFeature.boolean_op f) solves = tt
normalize_feature-IsNumeric c (IntentFeature.pattern_linear f) solves =
    Yields->>> (λ (g : PatternLinear _). (g.base ≡ f.base) × NumericPatternLinear g) IsNumeric
      (normalize_pattern_linear c f) _ (normalize_pattern_linear-Yields c f) (λ g g_h. g_h.1)
normalize_feature-IsNumeric c (IntentFeature.pattern_circular f) solves =
    Yields->>> (λ (g : PatternCircular _). (g.base ≡ f.base) × NumericPatternCircular g) IsNumeric
      (normalize_pattern_circular c f) _ (normalize_pattern_circular-Yields c f) (λ g g_h. g_h.1)
