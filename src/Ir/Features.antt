-- ===== src/Ir/Features.antt =====
-- src/ir.ts: the sum of the features.

use trueform.Ir.Bodies.{
  FeatureBase, DatumPlane, DatumAxis, DatumFrame, Sketch2D, Extrude, Plane, Surface, Revolve, Loft,
  Sweep, Shell, Pipe, PipeSweep, HexTubeSweep, Mirror, MoveBody,
}
use trueform.Ir.Faces.{
  ReplaceFace, MoveFace, DeleteFace, SplitBody, SplitFace, TrimSurface, ExtendSurface, Knit,
  CurveIntersect, Draft, Thicken, Unwrap, Thread,
}
use trueform.Ir.Details.{
  Hole, Fillet, VariableFillet, Chamfer, VariableChamfer, BooleanOp, PatternLinear, PatternCircular,
}

pub data IntentFeature (N : Type 0) : Type 0 where
  datum_plane : DatumPlane N → IntentFeature N
  datum_axis : DatumAxis N → IntentFeature N
  datum_frame : DatumFrame → IntentFeature N
  sketch2d : Sketch2D N → IntentFeature N
  extrude : Extrude N → IntentFeature N
  plane : Plane N → IntentFeature N
  surface : Surface N → IntentFeature N
  revolve : Revolve N → IntentFeature N
  loft : Loft N → IntentFeature N
  sweep : Sweep N → IntentFeature N
  shell : Shell N → IntentFeature N
  pipe : Pipe N → IntentFeature N
  pipe_sweep : PipeSweep N → IntentFeature N
  hex_tube_sweep : HexTubeSweep N → IntentFeature N
  mirror : Mirror → IntentFeature N
  replace_face : ReplaceFace → IntentFeature N
  move_body : MoveBody N → IntentFeature N
  move_face : MoveFace N → IntentFeature N
  delete_face : DeleteFace → IntentFeature N
  split_body : SplitBody → IntentFeature N
  split_face : SplitFace → IntentFeature N
  trim_surface : TrimSurface → IntentFeature N
  extend_surface : ExtendSurface N → IntentFeature N
  knit : Knit N → IntentFeature N
  curve_intersect : CurveIntersect → IntentFeature N
  draft : Draft N → IntentFeature N
  thicken : Thicken N → IntentFeature N
  unwrap : Unwrap → IntentFeature N
  thread : Thread N → IntentFeature N
  hole : Hole N → IntentFeature N
  fillet : Fillet N → IntentFeature N
  variable_fillet : VariableFillet N → IntentFeature N
  chamfer : Chamfer N → IntentFeature N
  variable_chamfer : VariableChamfer N → IntentFeature N
  boolean_op : BooleanOp → IntentFeature N
  pattern_linear : PatternLinear N → IntentFeature N
  pattern_circular : PatternCircular N → IntentFeature N

abbrev pub base_of : {N : Type 0} → IntentFeature N → FeatureBase
base_of (datum_plane f) = f.base
base_of (datum_axis f) = f.base
base_of (datum_frame f) = f.base
base_of (sketch2d f) = f.base
base_of (extrude f) = f.base
base_of (plane f) = f.base
base_of (surface f) = f.base
base_of (revolve f) = f.base
base_of (loft f) = f.base
base_of (sweep f) = f.base
base_of (shell f) = f.base
base_of (pipe f) = f.base
base_of (pipe_sweep f) = f.base
base_of (hex_tube_sweep f) = f.base
base_of (mirror f) = f.base
base_of (replace_face f) = f.base
base_of (move_body f) = f.base
base_of (move_face f) = f.base
base_of (delete_face f) = f.base
base_of (split_body f) = f.base
base_of (split_face f) = f.base
base_of (trim_surface f) = f.base
base_of (extend_surface f) = f.base
base_of (knit f) = f.base
base_of (curve_intersect f) = f.base
base_of (draft f) = f.base
base_of (thicken f) = f.base
base_of (unwrap f) = f.base
base_of (thread f) = f.base
base_of (hole f) = f.base
base_of (fillet f) = f.base
base_of (variable_fillet f) = f.base
base_of (chamfer f) = f.base
base_of (variable_chamfer f) = f.base
base_of (boolean_op f) = f.base
base_of (pattern_linear f) = f.base
base_of (pattern_circular f) = f.base
