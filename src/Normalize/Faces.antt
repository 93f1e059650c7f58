-- ===== src/Normalize/Faces.antt =====
-- src/ir_normalize.ts: the features that change faces, surfaces and bodies.
use trueform.Base.{map}
use trueform.Base.Outcome.{ok}
use trueform.Params.Expressions.{Run, done, ◌>>>◌}
use trueform.Normalize.Selectors.{Normalizing, normalize_selector, plane_or_datum}
use trueform.Normalize.Scalars.{optional, scalar, normalize_point3, normalize_axis_spec}
use trueform.Ir.Scalars.{length, angle, count}
use trueform.Ir.Faces.{
  ReplaceFace, MoveFace, DeleteFace, SplitBody, SplitFace, TrimSurface, ExtendSurface, Knit, Draft,
  Thicken, Unwrap, Thread,
}

unfoldable pub normalize_replace_face : {N : Type 0} → Normalizing N → ReplaceFace → ReplaceFace
normalize_replace_face c f = record f {
  source = normalize_selector c f.source;
  faces = normalize_selector c f.faces;
  tool = normalize_selector c f.tool;
}

unfoldable pub normalize_move_face : {N : Type 0} → Normalizing N → MoveFace N → Run (MoveFace N)
normalize_move_face c f = optional (normalize_point3 c) f.translation >>> λ new_translation.
    optional (normalize_axis_spec c) f.rotation_axis >>> λ new_rotation_axis.
    optional (scalar c angle) f.rotation_angle >>> λ new_rotation_angle.
    optional (scalar c count) f.scale >>> λ new_scale.
    optional (normalize_point3 c) f.origin >>> λ new_origin. done (
      ok (record f {
        source = normalize_selector c f.source;
        faces = normalize_selector c f.faces;
        translation = new_translation;
        rotation_axis = new_rotation_axis;
        rotation_angle = new_rotation_angle;
        scale = new_scale;
        origin = new_origin;
      }))

unfoldable pub normalize_delete_face : {N : Type 0} → Normalizing N → DeleteFace → DeleteFace
normalize_delete_face c f = record f {
  source = normalize_selector c f.source;
  faces = normalize_selector c f.faces;
}

unfoldable pub normalize_split_body : {N : Type 0} → Normalizing N → SplitBody → SplitBody
normalize_split_body c f = record f {
  source = normalize_selector c f.source;
  tool = normalize_selector c f.tool;
}

unfoldable pub normalize_split_face : {N : Type 0} → Normalizing N → SplitFace → SplitFace
normalize_split_face c f = record f {
  faces = normalize_selector c f.faces;
  tool = normalize_selector c f.tool;
}

unfoldable pub normalize_trim_surface : {N : Type 0} → Normalizing N → TrimSurface → TrimSurface
normalize_trim_surface c f = record f {
  source = normalize_selector c f.source;
  tools = map (normalize_selector c) f.tools;
}

unfoldable pub normalize_extend_surface :
    {N : Type 0} → Normalizing N → ExtendSurface N → Run (ExtendSurface N)
normalize_extend_surface c f = scalar c length f.distance >>> λ new_distance. done (
    ok (record f {
      source = normalize_selector c f.source;
      edges = normalize_selector c f.edges;
      distance = new_distance;
    }))

unfoldable pub normalize_knit : {N : Type 0} → Normalizing N → Knit N → Run (Knit N)
normalize_knit c f = optional (scalar c length) f.tolerance >>> λ new_tolerance.
    done
      (ok (record f { sources = map (normalize_selector c) f.sources; tolerance = new_tolerance }))

unfoldable pub normalize_draft : {N : Type 0} → Normalizing N → Draft N → Run (Draft N)
normalize_draft c f = normalize_axis_spec c f.pull_direction >>> λ new_pull_direction.
    scalar c angle f.angle >>> λ new_angle. done (
      ok (record f {
        source = normalize_selector c f.source;
        faces = normalize_selector c f.faces;
        neutral_plane = plane_or_datum c f.neutral_plane;
        pull_direction = new_pull_direction;
        angle = new_angle;
      }))

unfoldable pub normalize_thicken : {N : Type 0} → Normalizing N → Thicken N → Run (Thicken N)
normalize_thicken c f = scalar c length f.thickness >>> λ new_thickness.
    done (ok (record f { surface = normalize_selector c f.surface; thickness = new_thickness }))

unfoldable pub normalize_unwrap : {N : Type 0} → Normalizing N → Unwrap → Unwrap
normalize_unwrap c f = record f { source = normalize_selector c f.source }

unfoldable pub normalize_thread : {N : Type 0} → Normalizing N → Thread N → Run (Thread N)
normalize_thread c f = normalize_axis_spec c f.axis >>> λ new_axis.
    optional (normalize_point3 c) f.origin >>> λ new_origin.
    scalar c length f.length >>> λ new_length.
    scalar c length f.major_diameter >>> λ new_major_diameter.
    optional (scalar c length) f.minor_diameter >>> λ new_minor_diameter.
    scalar c length f.pitch >>> λ new_pitch.
    optional (scalar c count) f.segments_per_turn >>> λ new_segments_per_turn.
    optional (scalar c angle) f.profile_angle >>> λ new_profile_angle.
    optional (scalar c length) f.crest_flat >>> λ new_crest_flat.
    optional (scalar c length) f.root_flat >>> λ new_root_flat. done (
      ok (record f {
        axis = new_axis;
        origin = new_origin;
        length = new_length;
        major_diameter = new_major_diameter;
        minor_diameter = new_minor_diameter;
        pitch = new_pitch;
        segments_per_turn = new_segments_per_turn;
        profile_angle = new_profile_angle;
        crest_flat = new_crest_flat;
        root_flat = new_root_flat;
      }))
