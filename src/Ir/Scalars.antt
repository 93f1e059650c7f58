-- ===== src/Ir/Scalars.antt =====
-- src/ir.ts: units, expressions, points and axes, with the enumerations of src/ir_contract.ts.
use mathlib.Core.Option.{Option}
use trueform.Base.Text.{Str}

pub data LengthUnit : Type 0 where
  mm cm m inch : LengthUnit

pub data AngleUnit : Type 0 where
  rad deg : AngleUnit

pub data MeasureUnit : Type 0 where
  of_length : LengthUnit → MeasureUnit
  of_angle : AngleUnit → MeasureUnit

pub data ParamType : Type 0 where
  length angle count : ParamType

pub data BinaryOp : Type 0 where
  plus minus times over : BinaryOp

pub data Expr (N : Type 0) : Type 0 where
  literal : (value : N) (unit : Option MeasureUnit) → Expr N
  param : (id : Str) → Expr N
  binary : (op : BinaryOp) (left right : Expr N) → Expr N
  neg : (value : Expr N) → Expr N

-- A bare number, or an expression.
pub data Scalar (N : Type 0) : Type 0 where
  number : N → Scalar N
  expr : Expr N → Scalar N

abbrev pub Point2D : Type 0 → Type 0
Point2D N = Scalar N × Scalar N

abbrev pub Point3D : Type 0 → Type 0
Point3D N = Scalar N × Scalar N × Scalar N

abbrev pub Triple : Type 0 → Type 0
Triple N = N × N × N

pub data AxisDirection : Type 0 where
  plus_x minus_x plus_y minus_y plus_z minus_z : AxisDirection

pub data AxisSpec (N : Type 0) : Type 0 where
  along : AxisDirection → AxisSpec N
  axis_vector : (direction : Point3D N) → AxisSpec N
  axis_datum : (ref : Str) → AxisSpec N

pub data ExtrudeAxis (N : Type 0) : Type 0 where
  axis_spec : AxisSpec N → ExtrudeAxis N
  sketch_normal : ExtrudeAxis N

pub data ExtrudeMode : Type 0 where
  solid surface : ExtrudeMode

pub data ThickenDirection : Type 0 where
  normal reverse : ThickenDirection

pub data UnwrapMode : Type 0 where
  strict experimental : UnwrapMode

pub data ThreadHandedness : Type 0 where
  right left : ThreadHandedness

pub data HoleEndCondition : Type 0 where
  blind through_all up_to_next up_to_last : HoleEndCondition

pub data SweepOrientation : Type 0 where
  frenet fixed : SweepOrientation

pub data TrimSurfaceKeep : Type 0 where
  inside outside both : TrimSurfaceKeep

pub data ExtendSurfaceMode : Type 0 where
  natural tangent : ExtendSurfaceMode

pub data PointLocator : Type 0 where
  center mid start end : PointLocator

pub data DatumModifier : Type 0 where
  mmb lmb rmb : DatumModifier

pub data ToleranceModifier : Type 0 where
  mmc lmc rfs projected free_state tangent_plane statistical : ToleranceModifier

pub record ParamDef (N : Type 0) : Type 0 where
  pub id : Str
  pub type : ParamType
  pub value : Expr N

-- `Scalar | "throughAll"`
pub data Depth (N : Type 0) : Type 0 where
  depth : Scalar N → Depth N
  full_depth : Depth N

-- `Scalar | "full"`
pub data RevolveAngle (N : Type 0) : Type 0 where
  revolve_by : Scalar N → RevolveAngle N
  full_turn : RevolveAngle N
