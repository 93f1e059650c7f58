-- ===== src/Ir/Paths.antt =====
-- src/ir.ts: the paths that features sweep along.
use mathlib.Core.Bool.{Bool}
use mathlib.Core.Option.{Option}
use mathlib.Core.List.{List}
use trueform.Ir.Scalars.{ThreadHandedness, Scalar, Point3D}
use trueform.Ir.Sketches.{ArcDirection}

pub data PathSegment (N : Type 0) : Type 0 where
  line_segment : (start end : Point3D N) → PathSegment N
  arc_segment : (start end center : Point3D N) (direction : Option ArcDirection) → PathSegment N

pub record PathHelix (N : Type 0) : Type 0 where
  pub origin : Point3D N
  pub axis : Point3D N
  pub radius : Scalar N
  pub pitch : Scalar N
  pub turns : Option (Scalar N)
  pub length : Option (Scalar N)
  pub handedness : Option ThreadHandedness
  pub start_angle : Option (Scalar N)
  pub segments_per_turn : Option (Scalar N)

pub record PathSpiral (N : Type 0) : Type 0 where
  pub origin : Point3D N
  pub normal : Option (Point3D N)
  pub x_dir : Option (Point3D N)
  pub start_radius : Scalar N
  pub end_radius : Scalar N
  pub turns : Scalar N
  pub handedness : Option ThreadHandedness
  pub start_angle : Option (Scalar N)
  pub segments_per_turn : Option (Scalar N)

pub data Path3D (N : Type 0) : Type 0 where
  polyline : (points : List (Point3D N)) (closed : Option Bool) → Path3D N
  spline :
      (points : List (Point3D N)) (closed : Option Bool) (degree : Option (Scalar N)) → Path3D N
  segments : List (PathSegment N) → Path3D N
  helix : PathHelix N → Path3D N
  spiral : PathSpiral N → Path3D N
