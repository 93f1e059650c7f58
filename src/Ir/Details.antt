-- ===== src/Ir/Details.antt =====
-- src/ir.ts: holes, edge treatments, boolean operations and patterns.
use mathlib.Core.Bool.{Bool}
use mathlib.Core.Option.{Option}
use mathlib.Core.List.{List}
use trueform.Base.Text.{Str}
use trueform.Ir.Scalars.{AxisDirection, HoleEndCondition, Scalar, Point2D, Depth}
use trueform.Ir.Selectors.{Selector}
use trueform.Ir.Bodies.{FeatureBase}

pub data PatternRef : Type 0 where
  linear : (ref : Str) → PatternRef
  circular : (ref : Str) → PatternRef

pub data BooleanKind : Type 0 where
  union subtract intersect : BooleanKind

pub record HoleCounterbore (N : Type 0) : Type 0 where
  pub diameter : Scalar N
  pub depth : Scalar N

pub record HoleCountersink (N : Type 0) : Type 0 where
  pub diameter : Scalar N
  pub angle : Scalar N

pub record HoleWizard : Type 0 where
  pub standard : Option Str
  pub series : Option Str
  pub size : Option Str
  pub fit_class : Option Str
  pub thread_class : Option Str
  pub threaded : Option Bool
  pub end_condition : Option HoleEndCondition

pub record Hole (N : Type 0) : Type 0 where
  pub base : FeatureBase
  pub on_face : Selector
  pub axis : AxisDirection
  pub diameter : Scalar N
  pub depth : Depth N
  pub pattern : Option PatternRef
  pub position : Option (Point2D N)
  pub counterbore : Option (HoleCounterbore N)
  pub countersink : Option (HoleCountersink N)
  pub wizard : Option HoleWizard
  pub result : Option Str

pub record Fillet (N : Type 0) : Type 0 where
  pub base : FeatureBase
  pub edges : Selector
  pub radius : Scalar N
  pub result : Option Str

pub record VariableFilletEntry (N : Type 0) : Type 0 where
  pub edge : Selector
  pub radius : Scalar N

pub record VariableFillet (N : Type 0) : Type 0 where
  pub base : FeatureBase
  pub source : Selector
  pub entries : List (VariableFilletEntry N)
  pub result : Str

pub record Chamfer (N : Type 0) : Type 0 where
  pub base : FeatureBase
  pub edges : Selector
  pub distance : Scalar N
  pub result : Option Str

pub record VariableChamferEntry (N : Type 0) : Type 0 where
  pub edge : Selector
  pub distance : Scalar N

pub record VariableChamfer (N : Type 0) : Type 0 where
  pub base : FeatureBase
  pub source : Selector
  pub entries : List (VariableChamferEntry N)
  pub result : Str

pub record BooleanOp : Type 0 where
  pub base : FeatureBase
  pub op : BooleanKind
  pub left : Selector
  pub right : Selector
  pub result : Str

pub record PatternLinear (N : Type 0) : Type 0 where
  pub base : FeatureBase
  pub origin : Selector
  pub spacing : Point2D N
  pub count : Point2D N
  pub source : Option Selector
  pub result : Option Str

pub record PatternCircular (N : Type 0) : Type 0 where
  pub base : FeatureBase
  pub origin : Selector
  pub axis : AxisDirection
  pub count : Scalar N
  pub source : Option Selector
  pub result : Option Str
