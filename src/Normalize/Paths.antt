-- ===== src/Normalize/Paths.antt =====
-- src/ir_normalize.ts: the paths that features sweep along.
use trueform.Base.Outcome.{ok}
use trueform.Ir.Scalars.{length, angle, count}
use trueform.Ir.Paths.{
  PathSegment, line_segment, arc_segment, PathHelix, PathSpiral, Path3D, polyline, spline, segments,
  helix, spiral,
}
use trueform.Params.Expressions.{Run, done, ◌>>>◌}
use trueform.Normalize.Selectors.{Normalizing}
use trueform.Normalize.Scalars.{optional, each, scalar, normalize_point3}

unfoldable pub normalize_path_segment :
    {N : Type 0} → Normalizing N → PathSegment N → Run (PathSegment N)
normalize_path_segment c (line_segment from to) =
    normalize_point3 c from >>> λ a. normalize_point3 c to >>> λ b. done (ok (line_segment a b))
normalize_path_segment c (arc_segment from to middle direction) = normalize_point3 c from >>> λ a.
    normalize_point3 c to >>> λ b.
    normalize_point3 c middle >>> λ m. done (ok (arc_segment a b m direction))

unfoldable pub normalize_helix : {N : Type 0} → Normalizing N → PathHelix N → Run (PathHelix N)
normalize_helix c p = normalize_point3 c p.origin >>> λ new_origin.
    normalize_point3 c p.axis >>> λ new_axis. scalar c length p.radius >>> λ new_radius.
    scalar c length p.pitch >>> λ new_pitch. optional (scalar c count) p.turns >>> λ new_turns.
    optional (scalar c length) p.length >>> λ new_length.
    optional (scalar c angle) p.start_angle >>> λ new_start_angle.
    optional (scalar c count) p.segments_per_turn >>> λ new_segments_per_turn. done (
      ok (record p {
        origin = new_origin;
        axis = new_axis;
        radius = new_radius;
        pitch = new_pitch;
        turns = new_turns;
        length = new_length;
        start_angle = new_start_angle;
        segments_per_turn = new_segments_per_turn;
      }))

unfoldable pub normalize_spiral : {N : Type 0} → Normalizing N → PathSpiral N → Run (PathSpiral N)
normalize_spiral c p = normalize_point3 c p.origin >>> λ new_origin.
    optional (normalize_point3 c) p.normal >>> λ new_normal.
    optional (normalize_point3 c) p.x_dir >>> λ new_x_dir.
    scalar c length p.start_radius >>> λ new_start_radius.
    scalar c length p.end_radius >>> λ new_end_radius. scalar c count p.turns >>> λ new_turns.
    optional (scalar c angle) p.start_angle >>> λ new_start_angle.
    optional (scalar c count) p.segments_per_turn >>> λ new_segments_per_turn. done (
      ok (record p {
        origin = new_origin;
        normal = new_normal;
        x_dir = new_x_dir;
        start_radius = new_start_radius;
        end_radius = new_end_radius;
        turns = new_turns;
        start_angle = new_start_angle;
        segments_per_turn = new_segments_per_turn;
      }))

-- normalizePath3D
unfoldable pub normalize_path : {N : Type 0} → Normalizing N → Path3D N → Run (Path3D N)
normalize_path c (polyline points closed) =
    each (normalize_point3 c) points >>> λ new_points. done (ok (polyline new_points closed))
normalize_path c (spline points closed degree) = each (normalize_point3 c) points >>> λ new_points.
    optional (scalar c count) degree >>> λ new_degree.
    done (ok (spline new_points closed new_degree))
normalize_path c (helix p) = normalize_helix c p >>> λ q. done (ok (helix q))
normalize_path c (spiral p) = normalize_spiral c p >>> λ q. done (ok (spiral q))
normalize_path c (segments pieces) =
    each (normalize_path_segment c) pieces >>> λ new_pieces. done (ok (segments new_pieces))
