-- ===== src/Ir/Bodies.antt =====
-- src/ir.ts: datums, sketches and the features that make bodies.

use mathlib.Core.Option.{Option}
use mathlib.Core.List.{List}
use trueform.Base.Text.{Str}
use trueform.Ir.Scalars.{
  AxisDirection, AxisSpec, ExtrudeAxis, ExtrudeMode, SweepOrientation, Scalar, Point3D, Triple,
  Depth, RevolveAngle,
}
use trueform.Ir.Selectors.{Selector, PlaneRef}
use trueform.Ir.Sketches.{ProfileRef, SketchEntity, SketchConstraint, SketchProfile}
use trueform.Ir.Paths.{Path3D}

pub record FeatureBase : Type 0 where
  pub id : Str
  pub deps : Option (List Str)
  pub tags : Option (List Str)

pub data ShellDirection : Type 0 where
  to_inside to_outside : ShellDirection

pub record DatumPlane (N : Type 0) : Type 0 where
  pub base : FeatureBase
  pub normal : AxisSpec N
  pub origin : Option (Triple N)
  pub x_axis : Option (AxisSpec N)

pub record DatumAxis (N : Type 0) : Type 0 where
  pub base : FeatureBase
  pub direction : AxisSpec N
  pub origin : Option (Triple N)

pub record DatumFrame : Type 0 where
  pub base : FeatureBase
  pub on : Selector

pub record Sketch2D (N : Type 0) : Type 0 where
  pub base : FeatureBase
  pub plane : Option PlaneRef
  pub origin : Option (Triple N)
  pub entities : Option (List (SketchEntity N))
  pub constraints : Option (List (SketchConstraint N))
  pub profiles : List (SketchProfile N)

pub record Extrude (N : Type 0) : Type 0 where
  pub base : FeatureBase
  pub profile : ProfileRef N
  pub depth : Depth N
  pub result : Str
  pub axis : Option (ExtrudeAxis N)
  pub mode : Option ExtrudeMode

pub record Plane (N : Type 0) : Type 0 where
  pub base : FeatureBase
  pub width : Scalar N
  pub height : Scalar N
  pub plane : Option PlaneRef
  pub origin : Option (Point3D N)
  pub result : Str

pub record Surface (N : Type 0) : Type 0 where
  pub base : FeatureBase
  pub profile : ProfileRef N
  pub result : Str

pub record Revolve (N : Type 0) : Type 0 where
  pub base : FeatureBase
  pub profile : ProfileRef N
  pub axis : AxisDirection
  pub angle : Option (RevolveAngle N)
  pub origin : Option (Triple N)
  pub result : Str
  pub mode : Option ExtrudeMode

pub record Loft (N : Type 0) : Type 0 where
  pub base : FeatureBase
  pub profiles : List (ProfileRef N)
  pub result : Str
  pub mode : Option ExtrudeMode

pub record Sweep (N : Type 0) : Type 0 where
  pub base : FeatureBase
  pub profile : ProfileRef N
  pub path : Path3D N
  pub result : Str
  pub mode : Option ExtrudeMode
  pub frame : Option PlaneRef
  pub orientation : Option SweepOrientation

pub record Shell (N : Type 0) : Type 0 where
  pub base : FeatureBase
  pub source : Selector
  pub thickness : Scalar N
  pub direction : Option ShellDirection
  pub open_faces : Option (List Selector)
  pub result : Str

pub record Pipe (N : Type 0) : Type 0 where
  pub base : FeatureBase
  pub axis : AxisDirection
  pub origin : Option (Point3D N)
  pub length : Scalar N
  pub outer_diameter : Scalar N
  pub inner_diameter : Option (Scalar N)
  pub result : Str

pub record PipeSweep (N : Type 0) : Type 0 where
  pub base : FeatureBase
  pub path : Path3D N
  pub outer_diameter : Scalar N
  pub inner_diameter : Option (Scalar N)
  pub result : Str
  pub mode : Option ExtrudeMode

pub record HexTubeSweep (N : Type 0) : Type 0 where
  pub base : FeatureBase
  pub path : Path3D N
  pub outer_across_flats : Scalar N
  pub inner_across_flats : Option (Scalar N)
  pub result : Str
  pub mode : Option ExtrudeMode

pub record Mirror : Type 0 where
  pub base : FeatureBase
  pub source : Selector
  pub plane : PlaneRef
  pub result : Str

pub record MoveBody (N : Type 0) : Type 0 where
  pub base : FeatureBase
  pub source : Selector
  pub translation : Option (Point3D N)
  pub rotation_axis : Option (AxisSpec N)
  pub rotation_angle : Option (Scalar N)
  pub scale : Option (Scalar N)
  pub origin : Option (Point3D N)
  pub result : Str
