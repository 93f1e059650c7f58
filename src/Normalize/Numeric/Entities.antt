-- ===== src/Normalize/Numeric/Entities.antt =====
-- src/ir_normalize.ts: the entities of a sketch with numbers.
use trueform.Base.{All}
use trueform.Normalize.Selectors.{Normalizing}
use trueform.Normalize.Scalars.{optional, each, scalar, normalize_point2}
use trueform.Normalize.Numeric.{Yields, Each, Yields->>>, optional-Yields, each-Yields}
use trueform.Ir.Scalars.{length, angle, count}
use trueform.Ir.Sketches.{
  SketchRectangle, by_center, by_corner, SketchEntity, sketch_line, sketch_arc, sketch_circle,
  sketch_ellipse, sketch_rectangle, sketch_slot, sketch_polygon, sketch_spline, sketch_point,
}
use trueform.Normalize.Numeric.Scalars.{
  IsNumber, NumericPoint2, scalar-Yields, normalize_point2-Yields,
}
use trueform.Normalize.Sketches.{normalize_rectangle, normalize_sketch_entity}

unfoldable pub NumericRectangle : {N : Type 0} → SketchRectangle N → Type 0
NumericRectangle (by_center base middle width height rotation) =
    NumericPoint2 middle × IsNumber width × IsNumber height × Each IsNumber rotation
NumericRectangle (by_corner base middle width height rotation) =
    NumericPoint2 middle × IsNumber width × IsNumber height × Each IsNumber rotation

pub normalize_rectangle-Yields :
    {N : Type 0} (c : Normalizing N) (x : SketchRectangle N)
    → Yields NumericRectangle (normalize_rectangle c x)
unfolding Yields NumericRectangle normalize_rectangle
normalize_rectangle-Yields c (by_center base middle width height rotation) =
    Yields->>> NumericPoint2 NumericRectangle (normalize_point2 c middle) _
      (normalize_point2-Yields c middle)
      (λ new_middle middle_h.
        Yields->>> IsNumber NumericRectangle (scalar c length width) _
          (scalar-Yields c length width)
          (λ new_width width_h.
            Yields->>> IsNumber NumericRectangle (scalar c length height) _
              (scalar-Yields c length height)
              (λ new_height height_h.
                Yields->>> (Each IsNumber) NumericRectangle (optional (scalar c angle) rotation) _
                  (optional-Yields IsNumber (scalar c angle) (scalar-Yields c angle) rotation)
                  (λ new_rotation rotation_h. (middle_h, width_h, height_h, rotation_h)))))
normalize_rectangle-Yields c (by_corner base middle width height rotation) =
    Yields->>> NumericPoint2 NumericRectangle (normalize_point2 c middle) _
      (normalize_point2-Yields c middle)
      (λ new_middle middle_h.
        Yields->>> IsNumber NumericRectangle (scalar c length width) _
          (scalar-Yields c length width)
          (λ new_width width_h.
            Yields->>> IsNumber NumericRectangle (scalar c length height) _
              (scalar-Yields c length height)
              (λ new_height height_h.
                Yields->>> (Each IsNumber) NumericRectangle (optional (scalar c angle) rotation) _
                  (optional-Yields IsNumber (scalar c angle) (scalar-Yields c angle) rotation)
                  (λ new_rotation rotation_h. (middle_h, width_h, height_h, rotation_h)))))

unfoldable pub NumericEntity : {N : Type 0} → SketchEntity N → Type 0
NumericEntity (sketch_line p) = NumericPoint2 p.start × NumericPoint2 p.end
NumericEntity (sketch_arc p) = NumericPoint2 p.start × NumericPoint2 p.end × NumericPoint2 p.center
NumericEntity (sketch_circle p) = NumericPoint2 p.center × IsNumber p.radius
NumericEntity (sketch_ellipse p) =
    NumericPoint2 p.center × IsNumber p.radius_x × IsNumber p.radius_y × Each IsNumber p.rotation
NumericEntity (sketch_rectangle p) = NumericRectangle p
NumericEntity (sketch_slot p) =
    NumericPoint2 p.center × IsNumber p.length × IsNumber p.width × Each IsNumber p.rotation
NumericEntity (sketch_polygon p) =
    NumericPoint2 p.center × IsNumber p.radius × IsNumber p.sides × Each IsNumber p.rotation
NumericEntity (sketch_spline p) = All NumericPoint2 p.points × Each IsNumber p.degree
NumericEntity (sketch_point p) = NumericPoint2 p.point

pub normalize_sketch_entity-Yields :
    {N : Type 0} (c : Normalizing N) (x : SketchEntity N)
    → Yields NumericEntity (normalize_sketch_entity c x)
unfolding Yields NumericEntity normalize_sketch_entity
normalize_sketch_entity-Yields c (sketch_line p) =
    Yields->>> NumericPoint2 NumericEntity (normalize_point2 c p.start) _
      (normalize_point2-Yields c p.start)
      (λ new_start start_h.
        Yields->>> NumericPoint2 NumericEntity (normalize_point2 c p.end) _
          (normalize_point2-Yields c p.end) (λ new_end end_h. (start_h, end_h)))
normalize_sketch_entity-Yields c (sketch_arc p) =
    Yields->>> NumericPoint2 NumericEntity (normalize_point2 c p.start) _
      (normalize_point2-Yields c p.start)
      (λ new_start start_h.
        Yields->>> NumericPoint2 NumericEntity (normalize_point2 c p.end) _
          (normalize_point2-Yields c p.end)
          (λ new_end end_h.
            Yields->>> NumericPoint2 NumericEntity (normalize_point2 c p.center) _
              (normalize_point2-Yields c p.center)
              (λ new_center center_h. (start_h, end_h, center_h))))
normalize_sketch_entity-Yields c (sketch_circle p) =
    Yields->>> NumericPoint2 NumericEntity (normalize_point2 c p.center) _
      (normalize_point2-Yields c p.center)
      (λ new_center center_h.
        Yields->>> IsNumber NumericEntity (scalar c length p.radius) _
          (scalar-Yields c length p.radius) (λ new_radius radius_h. (center_h, radius_h)))
normalize_sketch_entity-Yields c (sketch_ellipse p) =
    Yields->>> NumericPoint2 NumericEntity (normalize_point2 c p.center) _
      (normalize_point2-Yields c p.center)
      (λ new_center center_h.
        Yields->>> IsNumber NumericEntity (scalar c length p.radius_x) _
          (scalar-Yields c length p.radius_x)
          (λ new_radius_x radius_x_h.
            Yields->>> IsNumber NumericEntity (scalar c length p.radius_y) _
              (scalar-Yields c length p.radius_y)
              (λ new_radius_y radius_y_h.
                Yields->>> (Each IsNumber) NumericEntity (optional (scalar c angle) p.rotation) _
                  (optional-Yields IsNumber (scalar c angle) (scalar-Yields c angle) p.rotation)
                  (λ new_rotation rotation_h. (center_h, radius_x_h, radius_y_h, rotation_h)))))
normalize_sketch_entity-Yields c (sketch_rectangle p) =
    Yields->>> NumericRectangle NumericEntity (normalize_rectangle c p) _
      (normalize_rectangle-Yields c p) (λ new_p p_h. p_h)
normalize_sketch_entity-Yields c (sketch_slot p) =
    Yields->>> NumericPoint2 NumericEntity (normalize_point2 c p.center) _
      (normalize_point2-Yields c p.center)
      (λ new_center center_h.
        Yields->>> IsNumber NumericEntity (scalar c length p.length) _
          (scalar-Yields c length p.length)
          (λ new_length length_h.
            Yields->>> IsNumber NumericEntity (scalar c length p.width) _
              (scalar-Yields c length p.width)
              (λ new_width width_h.
                Yields->>> (Each IsNumber) NumericEntity (optional (scalar c angle) p.rotation) _
                  (optional-Yields IsNumber (scalar c angle) (scalar-Yields c angle) p.rotation)
                  (λ new_rotation rotation_h. (center_h, length_h, width_h, rotation_h)))))
normalize_sketch_entity-Yields c (sketch_polygon p) =
    Yields->>> NumericPoint2 NumericEntity (normalize_point2 c p.center) _
      (normalize_point2-Yields c p.center)
      (λ new_center center_h.
        Yields->>> IsNumber NumericEntity (scalar c length p.radius) _
          (scalar-Yields c length p.radius)
          (λ new_radius radius_h.
            Yields->>> IsNumber NumericEntity (scalar c count p.sides) _
              (scalar-Yields c count p.sides)
              (λ new_sides sides_h.
                Yields->>> (Each IsNumber) NumericEntity (optional (scalar c angle) p.rotation) _
                  (optional-Yields IsNumber (scalar c angle) (scalar-Yields c angle) p.rotation)
                  (λ new_rotation rotation_h. (center_h, radius_h, sides_h, rotation_h)))))
normalize_sketch_entity-Yields c (sketch_spline p) =
    Yields->>> (All NumericPoint2) NumericEntity (each (normalize_point2 c) p.points) _
      (each-Yields NumericPoint2 (normalize_point2 c) (normalize_point2-Yields c) p.points)
      (λ new_points points_h.
        Yields->>> (Each IsNumber) NumericEntity (optional (scalar c count) p.degree) _
          (optional-Yields IsNumber (scalar c count) (scalar-Yields c count) p.degree)
          (λ new_degree degree_h. (points_h, degree_h)))
normalize_sketch_entity-Yields c (sketch_point p) =
    Yields->>> NumericPoint2 NumericEntity (normalize_point2 c p.point) _
      (normalize_point2-Yields c p.point) (λ new_point point_h. point_h)
