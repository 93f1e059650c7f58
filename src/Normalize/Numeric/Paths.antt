-- ===== src/Normalize/Numeric/Paths.antt =====
-- src/ir_normalize.ts: paths of numbers.
use trueform.Base.{All}
use trueform.Normalize.Selectors.{Normalizing}
use trueform.Normalize.Scalars.{optional, each, scalar, normalize_point3}
use trueform.Normalize.Numeric.{Yields, Each, Yields->>>, optional-Yields, each-Yields}
use trueform.Ir.Scalars.{length, angle, count}
use trueform.Ir.Paths.{
  PathSegment, line_segment, arc_segment, PathHelix, PathSpiral, Path3D, polyline, spline, segments,
  helix, spiral,
}
use trueform.Normalize.Numeric.Scalars.{
  IsNumber, NumericPoint3, scalar-Yields, normalize_point3-Yields,
}
use trueform.Normalize.Paths.{
  normalize_path_segment, normalize_helix, normalize_spiral, normalize_path,
}

unfoldable pub NumericSegment : {N : Type 0} → PathSegment N → Type 0
NumericSegment (line_segment from to) = NumericPoint3 from × NumericPoint3 to
NumericSegment (arc_segment from to middle direction) =
    NumericPoint3 from × NumericPoint3 to × NumericPoint3 middle

pub normalize_path_segment-Yields :
    {N : Type 0} (c : Normalizing N) (x : PathSegment N)
    → Yields NumericSegment (normalize_path_segment c x)
unfolding Yields NumericSegment normalize_path_segment
normalize_path_segment-Yields c (line_segment from to) =
    Yields->>> NumericPoint3 NumericSegment (normalize_point3 c from) _
      (normalize_point3-Yields c from)
      (λ new_from from_h.
        Yields->>> NumericPoint3 NumericSegment (normalize_point3 c to) _
          (normalize_point3-Yields c to) (λ new_to to_h. (from_h, to_h)))
normalize_path_segment-Yields c (arc_segment from to middle direction) =
    Yields->>> NumericPoint3 NumericSegment (normalize_point3 c from) _
      (normalize_point3-Yields c from)
      (λ new_from from_h.
        Yields->>> NumericPoint3 NumericSegment (normalize_point3 c to) _
          (normalize_point3-Yields c to)
          (λ new_to to_h.
            Yields->>> NumericPoint3 NumericSegment (normalize_point3 c middle) _
              (normalize_point3-Yields c middle) (λ new_middle middle_h. (from_h, to_h, middle_h))))

unfoldable pub NumericHelix : {N : Type 0} → PathHelix N → Type 0
NumericHelix p =
    NumericPoint3 p.origin
    × NumericPoint3 p.axis
    × IsNumber p.radius
    × IsNumber p.pitch
    × Each IsNumber p.turns
    × Each IsNumber p.length
    × Each IsNumber p.start_angle
    × Each IsNumber p.segments_per_turn

pub normalize_helix-Yields :
    {N : Type 0} (c : Normalizing N) (x : PathHelix N) → Yields NumericHelix (normalize_helix c x)
unfolding Yields NumericHelix normalize_helix
normalize_helix-Yields c p =
    Yields->>> NumericPoint3 NumericHelix (normalize_point3 c p.origin) _
      (normalize_point3-Yields c p.origin)
      (λ new_origin origin_h.
        Yields->>> NumericPoint3 NumericHelix (normalize_point3 c p.axis) _
          (normalize_point3-Yields c p.axis)
          (λ new_axis axis_h.
            Yields->>> IsNumber NumericHelix (scalar c length p.radius) _
              (scalar-Yields c length p.radius)
              (λ new_radius radius_h.
                Yields->>> IsNumber NumericHelix (scalar c length p.pitch) _
                  (scalar-Yields c length p.pitch)
                  (λ new_pitch pitch_h.
                    Yields->>> (Each IsNumber) NumericHelix (optional (scalar c count) p.turns) _
                      (optional-Yields IsNumber (scalar c count) (scalar-Yields c count) p.turns)
                      (λ new_turns turns_h.
                        Yields->>> (Each IsNumber) NumericHelix
                          (optional (scalar c length) p.length) _
                          (optional-Yields IsNumber (scalar c length) (scalar-Yields c length)
                            p.length)
                          (λ new_length length_h.
                            Yields->>> (Each IsNumber) NumericHelix
                              (optional (scalar c angle) p.start_angle) _
                              (optional-Yields IsNumber (scalar c angle) (scalar-Yields c angle)
                                p.start_angle)
                              (λ new_start_angle start_angle_h.
                                Yields->>> (Each IsNumber) NumericHelix
                                  (optional (scalar c count) p.segments_per_turn) _
                                  (optional-Yields IsNumber (scalar c count) (scalar-Yields c count)
                                    p.segments_per_turn)
                                  (λ new_segments_per_turn segments_per_turn_h. (
                                    origin_h, axis_h, radius_h, pitch_h, turns_h, length_h,
                                    start_angle_h, segments_per_turn_h,
                                  )))))))))

unfoldable pub NumericSpiral : {N : Type 0} → PathSpiral N → Type 0
NumericSpiral p =
    NumericPoint3 p.origin
    × Each NumericPoint3 p.normal
    × Each NumericPoint3 p.x_dir
    × IsNumber p.start_radius
    × IsNumber p.end_radius
    × IsNumber p.turns
    × Each IsNumber p.start_angle
    × Each IsNumber p.segments_per_turn

pub normalize_spiral-Yields :
    {N : Type 0} (c : Normalizing N) (x : PathSpiral N)
    → Yields NumericSpiral (normalize_spiral c x)
unfolding Yields NumericSpiral normalize_spiral
normalize_spiral-Yields c p =
    Yields->>> NumericPoint3 NumericSpiral (normalize_point3 c p.origin) _
      (normalize_point3-Yields c p.origin)
      (λ new_origin origin_h.
        Yields->>> (Each NumericPoint3) NumericSpiral (optional (normalize_point3 c) p.normal) _
          (optional-Yields NumericPoint3 (normalize_point3 c) (normalize_point3-Yields c) p.normal)
          (λ new_normal normal_h.
            Yields->>> (Each NumericPoint3) NumericSpiral (optional (normalize_point3 c) p.x_dir) _
              (optional-Yields NumericPoint3 (normalize_point3 c) (normalize_point3-Yields c)
                p.x_dir)
              (λ new_x_dir x_dir_h.
                Yields->>> IsNumber NumericSpiral (scalar c length p.start_radius) _
                  (scalar-Yields c length p.start_radius)
                  (λ new_start_radius start_radius_h.
                    Yields->>> IsNumber NumericSpiral (scalar c length p.end_radius) _
                      (scalar-Yields c length p.end_radius)
                      (λ new_end_radius end_radius_h.
                        Yields->>> IsNumber NumericSpiral (scalar c count p.turns) _
                          (scalar-Yields c count p.turns)
                          (λ new_turns turns_h.
                            Yields->>> (Each IsNumber) NumericSpiral
                              (optional (scalar c angle) p.start_angle) _
                              (optional-Yields IsNumber (scalar c angle) (scalar-Yields c angle)
                                p.start_angle)
                              (λ new_start_angle start_angle_h.
                                Yields->>> (Each IsNumber) NumericSpiral
                                  (optional (scalar c count) p.segments_per_turn) _
                                  (optional-Yields IsNumber (scalar c count) (scalar-Yields c count)
                                    p.segments_per_turn)
                                  (λ new_segments_per_turn segments_per_turn_h. (
                                    origin_h, normal_h, x_dir_h, start_radius_h, end_radius_h,
                                    turns_h, start_angle_h, segments_per_turn_h,
                                  )))))))))

unfoldable pub NumericPath : {N : Type 0} → Path3D N → Type 0
NumericPath (polyline points closed) = All NumericPoint3 points
NumericPath (spline points closed degree) = All NumericPoint3 points × Each IsNumber degree
NumericPath (helix p) = NumericHelix p
NumericPath (spiral p) = NumericSpiral p
NumericPath (segments pieces) = All NumericSegment pieces

pub normalize_path-Yields :
    {N : Type 0} (c : Normalizing N) (x : Path3D N) → Yields NumericPath (normalize_path c x)
unfolding Yields NumericPath normalize_path
normalize_path-Yields c (polyline points closed) =
    Yields->>> (All NumericPoint3) NumericPath (each (normalize_point3 c) points) _
      (each-Yields NumericPoint3 (normalize_point3 c) (normalize_point3-Yields c) points)
      (λ new_points points_h. points_h)
normalize_path-Yields c (spline points closed degree) =
    Yields->>> (All NumericPoint3) NumericPath (each (normalize_point3 c) points) _
      (each-Yields NumericPoint3 (normalize_point3 c) (normalize_point3-Yields c) points)
      (λ new_points points_h.
        Yields->>> (Each IsNumber) NumericPath (optional (scalar c count) degree) _
          (optional-Yields IsNumber (scalar c count) (scalar-Yields c count) degree)
          (λ new_degree degree_h. (points_h, degree_h)))
normalize_path-Yields c (helix p) =
    Yields->>> NumericHelix NumericPath (normalize_helix c p) _ (normalize_helix-Yields c p)
      (λ new_p p_h. p_h)
normalize_path-Yields c (spiral p) =
    Yields->>> NumericSpiral NumericPath (normalize_spiral c p) _ (normalize_spiral-Yields c p)
      (λ new_p p_h. p_h)
normalize_path-Yields c (segments pieces) =
    Yields->>> (All NumericSegment) NumericPath (each (normalize_path_segment c) pieces) _
      (each-Yields NumericSegment (normalize_path_segment c) (normalize_path_segment-Yields c)
        pieces)
      (λ new_pieces pieces_h. pieces_h)
