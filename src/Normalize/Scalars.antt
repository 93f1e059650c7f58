-- ===== src/Normalize/Scalars.antt =====
-- src/ir_normalize.ts: scalars, points and axes.
use trueform.Base.{Option, none, some, List, [], ◌∷◌}
use trueform.Base.Outcome.{ok}
use trueform.Ir.Scalars.{
  ParamType, length, angle, Scalar, number, Point2D, Point3D, Triple, AxisSpec, along, axis_vector,
  axis_datum, ExtrudeAxis, axis_spec, sketch_normal, Depth, depth, full_depth, RevolveAngle,
  revolve_by, full_turn,
}
use trueform.Params.Expressions.{Run, done, ◌>>>◌}
use trueform.Params.Context.{normalize_scalar}
use trueform.Normalize.Selectors.{Normalizing}

-- A field that may be missing, and an array.
unfoldable pub optional : {A B : Type 0} → (A → Run B) → Option A → Run (Option B)
optional f none = done (ok none)
optional f (some a) = f a >>> λ b. done (ok (some b))

unfoldable pub each : {A B : Type 0} → (A → Run B) → List A → Run (List B)
each f [] = done (ok [])
each f (a ∷ rest) = f a >>> λ b. each f rest >>> λ bs. done (ok (b ∷ bs))

module _ {N : Type 0} (c : Normalizing N) where
  -- normalizeScalar, whose result is a number.
  unfoldable pub scalar : ParamType → Scalar N → Run (Scalar N)
  unfolding normalize_scalar
  scalar type s = normalize_scalar c.num s type c.values c.units >>> λ n. done (ok (number n))

  unfoldable pub normalize_point2 : Point2D N → Run (Point2D N)
  unfolding scalar
  normalize_point2 p = scalar length p.0 >>> λ x. scalar length p.1 >>> λ y. done (ok (x, y))

  unfoldable pub normalize_point3 : Point3D N → Run (Point3D N)
  unfolding scalar
  normalize_point3 p = scalar length p.0 >>> λ x.
      scalar length p.1 >>> λ y. scalar length p.2 >>> λ z. done (ok (x, y, z))

  -- `normalizePoint3` of three numbers.
  unfoldable pub triple : Triple N → Run (Triple N)
  unfolding normalize_scalar
  triple p = normalize_scalar c.num (number p.0) length c.values c.units >>> λ x.
      normalize_scalar c.num (number p.1) length c.values c.units >>> λ y.
      normalize_scalar c.num (number p.2) length c.values c.units >>> λ z. done (ok (x, y, z))

  unfoldable pub normalize_axis_spec : AxisSpec N → Run (AxisSpec N)
  unfolding normalize_point3
  normalize_axis_spec (along d) = done (ok (along d))
  normalize_axis_spec (axis_vector v) = normalize_point3 v >>> λ w. done (ok (axis_vector w))
  normalize_axis_spec (axis_datum ref) = done (ok (axis_datum ref))

  unfoldable pub normalize_extrude_axis : ExtrudeAxis N → Run (ExtrudeAxis N)
  unfolding normalize_axis_spec
  normalize_extrude_axis (axis_spec a) = normalize_axis_spec a >>> λ b. done (ok (axis_spec b))
  normalize_extrude_axis sketch_normal = done (ok sketch_normal)

  unfoldable pub normalize_depth : Depth N → Run (Depth N)
  unfolding scalar
  normalize_depth (depth s) = scalar length s >>> λ t. done (ok (depth t))
  normalize_depth full_depth = done (ok full_depth)

  unfoldable pub normalize_angle : RevolveAngle N → Run (RevolveAngle N)
  unfolding scalar
  normalize_angle (revolve_by s) = scalar angle s >>> λ t. done (ok (revolve_by t))
  normalize_angle full_turn = done (ok full_turn)
