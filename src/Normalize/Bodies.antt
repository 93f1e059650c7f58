-- ===== src/Normalize/Bodies.antt =====
-- src/ir_normalize.ts: the datums, and the features that make bodies.
use trueform.Base.{map}
use trueform.Base.Outcome.{ok}
use trueform.Params.Expressions.{Run, done, ◌>>>◌}
use trueform.Normalize.Selectors.{Normalizing, normalize_selector, plane_or_datum, map?}
use trueform.Normalize.Scalars.{
  optional, each, scalar, normalize_point3, triple, normalize_axis_spec, normalize_extrude_axis,
  normalize_depth, normalize_angle,
}
use trueform.Ir.Scalars.{length, angle, count}
use trueform.Ir.Bodies.{
  DatumPlane, DatumAxis, DatumFrame, Extrude, Plane, Surface, Revolve, Loft, Sweep, Shell, Pipe,
  PipeSweep, HexTubeSweep, Mirror, MoveBody,
}
use trueform.Normalize.Sketches.{normalize_profile_ref}
use trueform.Normalize.Paths.{normalize_path}

unfoldable pub normalize_datum_plane :
    {N : Type 0} → Normalizing N → DatumPlane N → Run (DatumPlane N)
normalize_datum_plane c f = normalize_axis_spec c f.normal >>> λ new_normal.
    optional (triple c) f.origin >>> λ new_origin.
    optional (normalize_axis_spec c) f.x_axis >>> λ new_x_axis.
    done (ok (record f { normal = new_normal; origin = new_origin; x_axis = new_x_axis }))

unfoldable pub normalize_datum_axis : {N : Type 0} → Normalizing N → DatumAxis N → Run (DatumAxis N)
normalize_datum_axis c f = normalize_axis_spec c f.direction >>> λ new_direction.
    optional (triple c) f.origin >>> λ new_origin.
    done (ok (record f { direction = new_direction; origin = new_origin }))

unfoldable pub normalize_extrude : {N : Type 0} → Normalizing N → Extrude N → Run (Extrude N)
normalize_extrude c f = normalize_profile_ref c f.profile >>> λ new_profile.
    normalize_depth c f.depth >>> λ new_depth.
    optional (normalize_extrude_axis c) f.axis >>> λ new_axis.
    done (ok (record f { profile = new_profile; depth = new_depth; axis = new_axis }))

unfoldable pub normalize_plane : {N : Type 0} → Normalizing N → Plane N → Run (Plane N)
normalize_plane c f = scalar c length f.width >>> λ new_width.
    scalar c length f.height >>> λ new_height.
    optional (normalize_point3 c) f.origin >>> λ new_origin. done (
      ok (record f {
        plane = map? (plane_or_datum c) f.plane;
        width = new_width;
        height = new_height;
        origin = new_origin;
      }))

unfoldable pub normalize_surface : {N : Type 0} → Normalizing N → Surface N → Run (Surface N)
normalize_surface c f = normalize_profile_ref c f.profile >>> λ new_profile.
    done (ok (record f { profile = new_profile }))

unfoldable pub normalize_revolve : {N : Type 0} → Normalizing N → Revolve N → Run (Revolve N)
normalize_revolve c f = normalize_profile_ref c f.profile >>> λ new_profile.
    optional (normalize_angle c) f.angle >>> λ new_angle.
    done (ok (record f { profile = new_profile; angle = new_angle }))

unfoldable pub normalize_loft : {N : Type 0} → Normalizing N → Loft N → Run (Loft N)
normalize_loft c f = each (normalize_profile_ref c) f.profiles >>> λ new_profiles.
    done (ok (record f { profiles = new_profiles }))

unfoldable pub normalize_sweep : {N : Type 0} → Normalizing N → Sweep N → Run (Sweep N)
normalize_sweep c f = normalize_profile_ref c f.profile >>> λ new_profile.
    normalize_path c f.path >>> λ new_path. done (
      ok (record f {
        frame = map? (plane_or_datum c) f.frame;
        profile = new_profile;
        path = new_path;
      }))

unfoldable pub normalize_move_body : {N : Type 0} → Normalizing N → MoveBody N → Run (MoveBody N)
normalize_move_body c f = optional (normalize_point3 c) f.translation >>> λ new_translation.
    optional (normalize_axis_spec c) f.rotation_axis >>> λ new_rotation_axis.
    optional (scalar c angle) f.rotation_angle >>> λ new_rotation_angle.
    optional (scalar c count) f.scale >>> λ new_scale.
    optional (normalize_point3 c) f.origin >>> λ new_origin. done (
      ok (record f {
        source = normalize_selector c f.source;
        translation = new_translation;
        rotation_axis = new_rotation_axis;
        rotation_angle = new_rotation_angle;
        scale = new_scale;
        origin = new_origin;
      }))

unfoldable pub normalize_shell : {N : Type 0} → Normalizing N → Shell N → Run (Shell N)
normalize_shell c f = scalar c length f.thickness >>> λ new_thickness. done (
    ok (record f {
      source = normalize_selector c f.source;
      open_faces = map? (map (normalize_selector c)) f.open_faces;
      thickness = new_thickness;
    }))

unfoldable pub normalize_pipe : {N : Type 0} → Normalizing N → Pipe N → Run (Pipe N)
normalize_pipe c f = scalar c length f.length >>> λ new_length.
    scalar c length f.outer_diameter >>> λ new_outer_diameter.
    optional (scalar c length) f.inner_diameter >>> λ new_inner_diameter.
    optional (normalize_point3 c) f.origin >>> λ new_origin. done (
      ok (record f {
        length = new_length;
        outer_diameter = new_outer_diameter;
        inner_diameter = new_inner_diameter;
        origin = new_origin;
      }))

unfoldable pub normalize_pipe_sweep : {N : Type 0} → Normalizing N → PipeSweep N → Run (PipeSweep N)
normalize_pipe_sweep c f = normalize_path c f.path >>> λ new_path.
    scalar c length f.outer_diameter >>> λ new_outer_diameter.
    optional (scalar c length) f.inner_diameter >>> λ new_inner_diameter. done (
      ok (record f {
        path = new_path;
        outer_diameter = new_outer_diameter;
        inner_diameter = new_inner_diameter;
      }))

unfoldable pub normalize_hex_tube_sweep :
    {N : Type 0} → Normalizing N → HexTubeSweep N → Run (HexTubeSweep N)
normalize_hex_tube_sweep c f = normalize_path c f.path >>> λ new_path.
    scalar c length f.outer_across_flats >>> λ new_outer_across_flats.
    optional (scalar c length) f.inner_across_flats >>> λ new_inner_across_flats. done (
      ok (record f {
        path = new_path;
        outer_across_flats = new_outer_across_flats;
        inner_across_flats = new_inner_across_flats;
      }))

unfoldable pub normalize_datum_frame : {N : Type 0} → Normalizing N → DatumFrame → DatumFrame
normalize_datum_frame c f = record f { on = normalize_selector c f.on }

unfoldable pub normalize_mirror : {N : Type 0} → Normalizing N → Mirror → Mirror
normalize_mirror c f = record f {
  source = normalize_selector c f.source;
  plane = plane_or_datum c f.plane;
}
