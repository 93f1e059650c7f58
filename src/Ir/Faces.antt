-- ===== src/Ir/Faces.antt =====
-- src/ir.ts: the features that change faces, surfaces and bodies.
use mathlib.Core.Bool.{Bool}
use mathlib.Core.Option.{Option}
use mathlib.Core.List.{List}
use trueform.Base.Text.{Str}
use trueform.Ir.Scalars.{
  AxisSpec, ThickenDirection, UnwrapMode, ThreadHandedness, TrimSurfaceKeep, ExtendSurfaceMode,
  Scalar, Point3D,
}
use trueform.Ir.Selectors.{Selector, PlaneRef}
use trueform.Ir.Bodies.{FeatureBase}

pub record ReplaceFace : Type 0 where
  pub base : FeatureBase
  pub source : Selector
  pub faces : Selector
  pub tool : Selector
  pub heal : Option Bool
  pub result : Str

pub record MoveFace (N : Type 0) : Type 0 where
  pub base : FeatureBase
  pub source : Selector
  pub faces : Selector
  pub translation : Option (Point3D N)
  pub rotation_axis : Option (AxisSpec N)
  pub rotation_angle : Option (Scalar N)
  pub scale : Option (Scalar N)
  pub origin : Option (Point3D N)
  pub heal : Option Bool
  pub result : Str

pub record DeleteFace : Type 0 where
  pub base : FeatureBase
  pub source : Selector
  pub faces : Selector
  pub heal : Option Bool
  pub result : Str

pub record SplitBody : Type 0 where
  pub base : FeatureBase
  pub source : Selector
  pub tool : Selector
  pub keep_tool : Option Bool
  pub result : Str

pub record SplitFace : Type 0 where
  pub base : FeatureBase
  pub faces : Selector
  pub tool : Selector
  pub result : Str

pub record TrimSurface : Type 0 where
  pub base : FeatureBase
  pub source : Selector
  pub tools : List Selector
  pub keep : TrimSurfaceKeep
  pub result : Str

pub record ExtendSurface (N : Type 0) : Type 0 where
  pub base : FeatureBase
  pub source : Selector
  pub edges : Selector
  pub distance : Scalar N
  pub mode : Option ExtendSurfaceMode
  pub result : Str

pub record Knit (N : Type 0) : Type 0 where
  pub base : FeatureBase
  pub sources : List Selector
  pub tolerance : Option (Scalar N)
  pub make_solid : Option Bool
  pub result : Str

pub record CurveIntersect : Type 0 where
  pub base : FeatureBase
  pub first : Selector
  pub second : Selector
  pub result : Str

pub record Draft (N : Type 0) : Type 0 where
  pub base : FeatureBase
  pub source : Selector
  pub faces : Selector
  pub neutral_plane : PlaneRef
  pub pull_direction : AxisSpec N
  pub angle : Scalar N
  pub result : Str

pub record Thicken (N : Type 0) : Type 0 where
  pub base : FeatureBase
  pub surface : Selector
  pub thickness : Scalar N
  pub direction : Option ThickenDirection
  pub result : Str

pub record Unwrap : Type 0 where
  pub base : FeatureBase
  pub source : Selector
  pub mode : Option UnwrapMode
  pub result : Str

pub record Thread (N : Type 0) : Type 0 where
  pub base : FeatureBase
  pub axis : AxisSpec N
  pub origin : Option (Point3D N)
  pub length : Scalar N
  pub major_diameter : Scalar N
  pub minor_diameter : Option (Scalar N)
  pub pitch : Scalar N
  pub handedness : Option ThreadHandedness
  pub segments_per_turn : Option (Scalar N)
  pub profile_angle : Option (Scalar N)
  pub crest_flat : Option (Scalar N)
  pub root_flat : Option (Scalar N)
  pub result : Str
