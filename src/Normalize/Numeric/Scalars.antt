-- ===== src/Normalize/Numeric/Scalars.antt =====
-- src/ir_normalize.ts: scalars, points and axes that are numbers.
use trueform.Base.Outcome.{ok, err}
use trueform.Params.Expressions.{Run, done, out_of_fuel}
use trueform.Normalize.Selectors.{Normalizing}
use trueform.Params.Context.{normalize_scalar}
use trueform.Normalize.Scalars.{
  scalar, normalize_point2, normalize_point3, triple, normalize_axis_spec, normalize_extrude_axis,
  normalize_depth, normalize_angle,
}
use trueform.Normalize.Numeric.{Yields, Yields->>>}
use trueform.Ir.Scalars.{
  ParamType, length, angle, Scalar, number, expr, Point2D, Point3D, Triple, AxisSpec, along,
  axis_vector, axis_datum, ExtrudeAxis, axis_spec, sketch_normal, Depth, depth, full_depth,
  RevolveAngle, revolve_by, full_turn,
}

abbrev pub Any : {A : Type 0} → A → Type 0
Any a = Unit

abbrev pub IsNumber : {N : Type 0} → Scalar N → Type 0
IsNumber (number n) = Unit
IsNumber (expr e) = ⊥

abbrev pub NumericPoint2 : {N : Type 0} → Point2D N → Type 0
NumericPoint2 p = IsNumber p.0 × IsNumber p.1

abbrev pub NumericPoint3 : {N : Type 0} → Point3D N → Type 0
NumericPoint3 p = IsNumber p.0 × IsNumber p.1 × IsNumber p.2

abbrev pub NumericAxis : {N : Type 0} → AxisSpec N → Type 0
NumericAxis (along d) = Unit
NumericAxis (axis_vector v) = NumericPoint3 v
NumericAxis (axis_datum ref) = Unit

abbrev pub NumericExtrudeAxis : {N : Type 0} → ExtrudeAxis N → Type 0
NumericExtrudeAxis (axis_spec a) = NumericAxis a
NumericExtrudeAxis sketch_normal = Unit

abbrev pub NumericDepth : {N : Type 0} → Depth N → Type 0
NumericDepth (depth s) = IsNumber s
NumericDepth full_depth = Unit

abbrev pub NumericAngle : {N : Type 0} → RevolveAngle N → Type 0
NumericAngle (revolve_by s) = IsNumber s
NumericAngle full_turn = Unit

pub Yields-Any : {A : Type 0} (m : Run A) → Yields Any m
unfolding Yields
Yields-Any (done (ok a)) = tt
Yields-Any (done (err e)) = tt
Yields-Any out_of_fuel = tt

pub scalar-Yields :
    {N : Type 0} (c : Normalizing N) (type : ParamType) (s : Scalar N)
    → Yields IsNumber (scalar c type s)
unfolding Yields scalar
scalar-Yields c type s =
    Yields->>> Any IsNumber (normalize_scalar c.num s type c.values c.units) _
      (Yields-Any (normalize_scalar c.num s type c.values c.units)) (λ n n_h. tt)

pub normalize_point2-Yields :
    {N : Type 0} (c : Normalizing N) (x : Point2D N) → Yields NumericPoint2 (normalize_point2 c x)
unfolding Yields normalize_point2
normalize_point2-Yields c p =
    Yields->>> IsNumber NumericPoint2 (scalar c length p.0) _ (scalar-Yields c length p.0) (λ x x_h.
      Yields->>> IsNumber NumericPoint2 (scalar c length p.1) _ (scalar-Yields c length p.1)
        (λ y y_h. (x_h, y_h)))

pub normalize_point3-Yields :
    {N : Type 0} (c : Normalizing N) (x : Point3D N) → Yields NumericPoint3 (normalize_point3 c x)
unfolding Yields normalize_point3
normalize_point3-Yields c p =
    Yields->>> IsNumber NumericPoint3 (scalar c length p.0) _ (scalar-Yields c length p.0) (λ x x_h.
      Yields->>> IsNumber NumericPoint3 (scalar c length p.1) _ (scalar-Yields c length p.1)
        (λ y y_h.
          Yields->>> IsNumber NumericPoint3 (scalar c length p.2) _ (scalar-Yields c length p.2)
            (λ z z_h. (x_h, y_h, z_h))))

pub triple-Yields : {N : Type 0} (c : Normalizing N) (p : Triple N) → Yields Any (triple c p)
triple-Yields c p = Yields-Any (triple c p)

pub normalize_axis_spec-Yields :
    {N : Type 0} (c : Normalizing N) (x : AxisSpec N) → Yields NumericAxis (normalize_axis_spec c x)
unfolding Yields normalize_axis_spec
normalize_axis_spec-Yields c (axis_vector s) =
    Yields->>> NumericPoint3 NumericAxis (normalize_point3 c s) _ (normalize_point3-Yields c s)
      (λ new_s s_h. s_h)
normalize_axis_spec-Yields c (along d) = tt
normalize_axis_spec-Yields c (axis_datum ref) = tt

pub normalize_extrude_axis-Yields :
    {N : Type 0} (c : Normalizing N) (x : ExtrudeAxis N)
    → Yields NumericExtrudeAxis (normalize_extrude_axis c x)
unfolding Yields normalize_extrude_axis
normalize_extrude_axis-Yields c (axis_spec s) =
    Yields->>> NumericAxis NumericExtrudeAxis (normalize_axis_spec c s) _
      (normalize_axis_spec-Yields c s) (λ new_s s_h. s_h)
normalize_extrude_axis-Yields c sketch_normal = tt

pub normalize_depth-Yields :
    {N : Type 0} (c : Normalizing N) (x : Depth N) → Yields NumericDepth (normalize_depth c x)
unfolding Yields normalize_depth
normalize_depth-Yields c (depth s) =
    Yields->>> IsNumber NumericDepth (scalar c length s) _ (scalar-Yields c length s)
      (λ new_s s_h. s_h)
normalize_depth-Yields c full_depth = tt

pub normalize_angle-Yields :
    {N : Type 0} (c : Normalizing N) (x : RevolveAngle N)
    → Yields NumericAngle (normalize_angle c x)
unfolding Yields normalize_angle
normalize_angle-Yields c (revolve_by s) =
    Yields->>> IsNumber NumericAngle (scalar c angle s) _ (scalar-Yields c angle s)
      (λ new_s s_h. s_h)
normalize_angle-Yields c full_turn = tt
