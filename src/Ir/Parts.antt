-- ===== src/Ir/Parts.antt =====
-- src/ir.ts: tolerances, assertions, and the parts that hold features.
use mathlib.Core.Bool.{Bool}
use mathlib.Core.Option.{Option}
use mathlib.Core.List.{List}
use trueform.Base.Text.{Str}
use trueform.Ir.Scalars.{
  AxisDirection, ThreadHandedness, DatumModifier, ToleranceModifier, ParamDef, Scalar,
}
use trueform.Ir.Selectors.{Selector, GeometryRef, DatumRef}
use trueform.Ir.Features.{IntentFeature}

pub data ZoneShape : Type 0 where
  diameter cartesian : ZoneShape

pub record MateConnector : Type 0 where
  pub id : Str
  pub origin : Selector
  pub normal : Option AxisDirection
  pub x_axis : Option AxisDirection

pub record CosmeticThread (N : Type 0) : Type 0 where
  pub id : Str
  pub target : GeometryRef
  pub designation : Option Str
  pub standard : Option Str
  pub series : Option Str
  pub thread_class : Option Str
  pub handedness : Option ThreadHandedness
  pub internal : Option Bool
  pub major_diameter : Option (Scalar N)
  pub minor_diameter : Option (Scalar N)
  pub pitch : Option (Scalar N)
  pub length : Option (Scalar N)
  pub depth : Option (Scalar N)
  pub notes : Option (List Str)
  pub capabilities : Option (List Str)
  pub requirement : Option Str

pub record FtiDatum : Type 0 where
  pub id : Str
  pub label : Str
  pub target : GeometryRef
  pub modifiers : Option (List DatumModifier)
  pub capabilities : Option (List Str)
  pub requirement : Option Str

pub record SurfaceProfileConstraint (N : Type 0) : Type 0 where
  pub id : Str
  pub target : Selector
  pub tolerance : Scalar N
  pub reference_frame : Option Selector
  pub capabilities : Option (List Str)
  pub requirement : Option Str

pub record FlatnessConstraint (N : Type 0) : Type 0 where
  pub id : Str
  pub target : Selector
  pub tolerance : Scalar N
  pub capabilities : Option (List Str)
  pub requirement : Option Str

pub record ParallelismConstraint (N : Type 0) : Type 0 where
  pub id : Str
  pub target : Selector
  pub tolerance : Scalar N
  pub datum : List DatumRef
  pub modifiers : Option (List ToleranceModifier)
  pub capabilities : Option (List Str)
  pub requirement : Option Str

pub record PerpendicularityConstraint (N : Type 0) : Type 0 where
  pub id : Str
  pub target : Selector
  pub tolerance : Scalar N
  pub datum : List DatumRef
  pub modifiers : Option (List ToleranceModifier)
  pub capabilities : Option (List Str)
  pub requirement : Option Str

pub record PositionConstraint (N : Type 0) : Type 0 where
  pub id : Str
  pub target : GeometryRef
  pub tolerance : Scalar N
  pub datum : List DatumRef
  pub modifiers : Option (List ToleranceModifier)
  pub capabilities : Option (List Str)
  pub requirement : Option Str
  pub zone : Option ZoneShape

pub record SizeConstraint (N : Type 0) : Type 0 where
  pub id : Str
  pub target : GeometryRef
  pub nominal : Option (Scalar N)
  pub tolerance : Option (Scalar N)
  pub min : Option (Scalar N)
  pub max : Option (Scalar N)
  pub modifiers : Option (List ToleranceModifier)
  pub capabilities : Option (List Str)
  pub requirement : Option Str

pub record DimensionDistance (N : Type 0) : Type 0 where
  pub id : Str
  pub from : GeometryRef
  pub to : GeometryRef
  pub nominal : Option (Scalar N)
  pub tolerance : Option (Scalar N)
  pub plus : Option (Scalar N)
  pub minus : Option (Scalar N)
  pub capabilities : Option (List Str)
  pub requirement : Option Str

pub record DimensionAngle (N : Type 0) : Type 0 where
  pub id : Str
  pub from : GeometryRef
  pub to : GeometryRef
  pub nominal : Option (Scalar N)
  pub tolerance : Option (Scalar N)
  pub plus : Option (Scalar N)
  pub minus : Option (Scalar N)
  pub capabilities : Option (List Str)
  pub requirement : Option Str

pub data FtiConstraint (N : Type 0) : Type 0 where
  surface_profile : SurfaceProfileConstraint N → FtiConstraint N
  flatness : FlatnessConstraint N → FtiConstraint N
  parallelism : ParallelismConstraint N → FtiConstraint N
  perpendicularity : PerpendicularityConstraint N → FtiConstraint N
  position : PositionConstraint N → FtiConstraint N
  size : SizeConstraint N → FtiConstraint N
  distance : DimensionDistance N → FtiConstraint N
  angle : DimensionAngle N → FtiConstraint N

pub data IntentAssertion (N : Type 0) : Type 0 where
  brep_valid : (id : Str) (target : Option Selector) → IntentAssertion N
  min_edge_length : (id : Str) (min : Scalar N) (target : Option Selector) → IntentAssertion N

pub record IntentPart (N : Type 0) : Type 0 where
  pub id : Str
  pub features : List (IntentFeature N)
  pub params : Option (List (ParamDef N))
  pub connectors : Option (List MateConnector)
  pub datums : Option (List FtiDatum)
  pub constraints : Option (List (FtiConstraint N))
  pub cosmetic_threads : Option (List (CosmeticThread N))
  pub assertions : Option (List (IntentAssertion N))
