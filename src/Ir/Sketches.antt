-- ===== src/Ir/Sketches.antt =====
-- src/ir.ts: profiles, sketches and paths.
use mathlib.Core.Bool.{Bool}
use mathlib.Core.Option.{Option}
use mathlib.Core.List.{List}
use trueform.Base.Text.{Str}
use trueform.Ir.Scalars.{Scalar, Point2D, Point3D}

-- `profile.sketch` is `sketch_loop`.
pub data Profile (N : Type 0) : Type 0 where
  rectangle : (width height : Scalar N) (center : Option (Point3D N)) → Profile N
  circle : (radius : Scalar N) (center : Option (Point3D N)) → Profile N
  poly :
      (sides radius : Scalar N) (center : Option (Point3D N)) (rotation : Option (Scalar N))
      → Profile N
  sketch_loop :
      (path : List Str) (holes : Option (List (List Str))) (open_path : Option Bool) → Profile N

pub data ProfileRef (N : Type 0) : Type 0 where
  inline_profile : Profile N → ProfileRef N
  profile_ref : (name : Str) → ProfileRef N

pub record SketchProfile (N : Type 0) : Type 0 where
  pub name : Str
  pub profile : Profile N

pub data PointHandle : Type 0 where
  start_handle end_handle center_handle point_handle corner_handle : PointHandle

pub record SketchConstraintPointRef : Type 0 where
  pub entity : Str
  pub handle : Option PointHandle

pub data SketchConstraint (N : Type 0) : Type 0 where
  coincident :
      (id : Str) (a : SketchConstraintPointRef) (b : SketchConstraintPointRef) → SketchConstraint N
  horizontal : (id : Str) (line : Str) → SketchConstraint N
  vertical : (id : Str) (line : Str) → SketchConstraint N
  parallel : (id : Str) (a : Str) (b : Str) → SketchConstraint N
  perpendicular : (id : Str) (a : Str) (b : Str) → SketchConstraint N
  equal_length : (id : Str) (a : Str) (b : Str) → SketchConstraint N
  distance :
      (id : Str) (a : SketchConstraintPointRef) (b : SketchConstraintPointRef) (distance : Scalar N)
      → SketchConstraint N
  angle : (id : Str) (a : Str) (b : Str) (angle : Scalar N) → SketchConstraint N
  radius : (id : Str) (curve : Str) (radius : Scalar N) → SketchConstraint N
  tangent : (id : Str) (a : Str) (b : Str) → SketchConstraint N
  concentric : (id : Str) (a : Str) (b : Str) → SketchConstraint N
  point_on_line : (id : Str) (point : SketchConstraintPointRef) (line : Str) → SketchConstraint N
  collinear : (id : Str) (a : Str) (b : Str) → SketchConstraint N
  midpoint : (id : Str) (point : SketchConstraintPointRef) (line : Str) → SketchConstraint N
  symmetry :
      (id : Str) (a : SketchConstraintPointRef) (b : SketchConstraintPointRef) (axis : Str)
      → SketchConstraint N
  fix_point :
      (id : Str) (point : SketchConstraintPointRef) (x : Option (Scalar N)) (y : Option (Scalar N))
      → SketchConstraint N

pub data ArcDirection : Type 0 where
  cw ccw : ArcDirection

pub data EndStyle : Type 0 where
  arc_end straight_end : EndStyle

pub record SketchEntityBase : Type 0 where
  pub id : Str
  pub construction : Option Bool

pub record SketchLine (N : Type 0) : Type 0 where
  pub base : SketchEntityBase
  pub start : Point2D N
  pub end : Point2D N

pub record SketchArc (N : Type 0) : Type 0 where
  pub base : SketchEntityBase
  pub start : Point2D N
  pub end : Point2D N
  pub center : Point2D N
  pub direction : ArcDirection

pub record SketchCircle (N : Type 0) : Type 0 where
  pub base : SketchEntityBase
  pub center : Point2D N
  pub radius : Scalar N

pub record SketchEllipse (N : Type 0) : Type 0 where
  pub base : SketchEntityBase
  pub center : Point2D N
  pub radius_x : Scalar N
  pub radius_y : Scalar N
  pub rotation : Option (Scalar N)

pub data SketchRectangle (N : Type 0) : Type 0 where
  by_center :
      (base : SketchEntityBase) (center : Point2D N) (width height : Scalar N)
      (rotation : Option (Scalar N))
      → SketchRectangle N
  by_corner :
      (base : SketchEntityBase) (corner : Point2D N) (width height : Scalar N)
      (rotation : Option (Scalar N))
      → SketchRectangle N

pub record SketchSlot (N : Type 0) : Type 0 where
  pub base : SketchEntityBase
  pub center : Point2D N
  pub length : Scalar N
  pub width : Scalar N
  pub rotation : Option (Scalar N)
  pub end_style : Option EndStyle

pub record SketchPolygon (N : Type 0) : Type 0 where
  pub base : SketchEntityBase
  pub center : Point2D N
  pub radius : Scalar N
  pub sides : Scalar N
  pub rotation : Option (Scalar N)

pub record SketchSpline (N : Type 0) : Type 0 where
  pub base : SketchEntityBase
  pub points : List (Point2D N)
  pub closed : Option Bool
  pub degree : Option (Scalar N)

pub record SketchPoint (N : Type 0) : Type 0 where
  pub base : SketchEntityBase
  pub point : Point2D N

pub data SketchEntity (N : Type 0) : Type 0 where
  sketch_line : SketchLine N → SketchEntity N
  sketch_arc : SketchArc N → SketchEntity N
  sketch_circle : SketchCircle N → SketchEntity N
  sketch_ellipse : SketchEllipse N → SketchEntity N
  sketch_rectangle : SketchRectangle N → SketchEntity N
  sketch_slot : SketchSlot N → SketchEntity N
  sketch_polygon : SketchPolygon N → SketchEntity N
  sketch_spline : SketchSpline N → SketchEntity N
  sketch_point : SketchPoint N → SketchEntity N
