-- ===== src/Normalize/Features.antt =====
-- src/ir_normalize.ts: `normalizeFeature`, by the kind of the feature.
use trueform.Base.Outcome.{ok}
use trueform.Ir.Features.{IntentFeature}
use trueform.Params.Expressions.{Run, done, ◌>>>◌}
use trueform.Normalize.Selectors.{Normalizing}
use trueform.Normalize.Sketches.{normalize_sketch2d}
use trueform.Normalize.Bodies.{
  normalize_datum_plane, normalize_datum_axis, normalize_extrude, normalize_plane,
  normalize_surface, normalize_revolve, normalize_loft, normalize_sweep, normalize_move_body,
  normalize_shell, normalize_pipe, normalize_pipe_sweep, normalize_hex_tube_sweep,
  normalize_datum_frame, normalize_mirror,
}
use trueform.Normalize.Faces.{
  normalize_replace_face, normalize_move_face, normalize_delete_face, normalize_split_body,
  normalize_split_face, normalize_trim_surface, normalize_extend_surface, normalize_knit,
  normalize_draft, normalize_thicken, normalize_unwrap, normalize_thread,
}
use trueform.Normalize.Details.{
  normalize_hole, normalize_fillet, normalize_variable_fillet, normalize_chamfer,
  normalize_variable_chamfer, normalize_boolean_op, normalize_pattern_linear,
  normalize_pattern_circular,
}

-- What only normalizes selectors cannot fail. The selectors of a curve intersection stay as they are.
unfoldable pub normalize_feature :
    {N : Type 0} → Normalizing N → IntentFeature N → Run (IntentFeature N)
normalize_feature c (IntentFeature.datum_plane f) =
    normalize_datum_plane c f >>> λ g. done (ok (IntentFeature.datum_plane g))
normalize_feature c (IntentFeature.datum_axis f) =
    normalize_datum_axis c f >>> λ g. done (ok (IntentFeature.datum_axis g))
normalize_feature c (IntentFeature.datum_frame f) =
    done (ok (IntentFeature.datum_frame (normalize_datum_frame c f)))
normalize_feature c (IntentFeature.sketch2d f) =
    normalize_sketch2d c f >>> λ g. done (ok (IntentFeature.sketch2d g))
normalize_feature c (IntentFeature.extrude f) =
    normalize_extrude c f >>> λ g. done (ok (IntentFeature.extrude g))
normalize_feature c (IntentFeature.plane f) =
    normalize_plane c f >>> λ g. done (ok (IntentFeature.plane g))
normalize_feature c (IntentFeature.surface f) =
    normalize_surface c f >>> λ g. done (ok (IntentFeature.surface g))
normalize_feature c (IntentFeature.revolve f) =
    normalize_revolve c f >>> λ g. done (ok (IntentFeature.revolve g))
normalize_feature c (IntentFeature.loft f) =
    normalize_loft c f >>> λ g. done (ok (IntentFeature.loft g))
normalize_feature c (IntentFeature.sweep f) =
    normalize_sweep c f >>> λ g. done (ok (IntentFeature.sweep g))
normalize_feature c (IntentFeature.shell f) =
    normalize_shell c f >>> λ g. done (ok (IntentFeature.shell g))
normalize_feature c (IntentFeature.pipe f) =
    normalize_pipe c f >>> λ g. done (ok (IntentFeature.pipe g))
normalize_feature c (IntentFeature.pipe_sweep f) =
    normalize_pipe_sweep c f >>> λ g. done (ok (IntentFeature.pipe_sweep g))
normalize_feature c (IntentFeature.hex_tube_sweep f) =
    normalize_hex_tube_sweep c f >>> λ g. done (ok (IntentFeature.hex_tube_sweep g))
normalize_feature c (IntentFeature.mirror f) =
    done (ok (IntentFeature.mirror (normalize_mirror c f)))
normalize_feature c (IntentFeature.replace_face f) =
    done (ok (IntentFeature.replace_face (normalize_replace_face c f)))
normalize_feature c (IntentFeature.move_body f) =
    normalize_move_body c f >>> λ g. done (ok (IntentFeature.move_body g))
normalize_feature c (IntentFeature.move_face f) =
    normalize_move_face c f >>> λ g. done (ok (IntentFeature.move_face g))
normalize_feature c (IntentFeature.delete_face f) =
    done (ok (IntentFeature.delete_face (normalize_delete_face c f)))
normalize_feature c (IntentFeature.split_body f) =
    done (ok (IntentFeature.split_body (normalize_split_body c f)))
normalize_feature c (IntentFeature.split_face f) =
    done (ok (IntentFeature.split_face (normalize_split_face c f)))
normalize_feature c (IntentFeature.trim_surface f) =
    done (ok (IntentFeature.trim_surface (normalize_trim_surface c f)))
normalize_feature c (IntentFeature.extend_surface f) =
    normalize_extend_surface c f >>> λ g. done (ok (IntentFeature.extend_surface g))
normalize_feature c (IntentFeature.knit f) =
    normalize_knit c f >>> λ g. done (ok (IntentFeature.knit g))
normalize_feature c (IntentFeature.curve_intersect f) = done (ok (IntentFeature.curve_intersect f))
normalize_feature c (IntentFeature.draft f) =
    normalize_draft c f >>> λ g. done (ok (IntentFeature.draft g))
normalize_feature c (IntentFeature.thicken f) =
    normalize_thicken c f >>> λ g. done (ok (IntentFeature.thicken g))
normalize_feature c (IntentFeature.unwrap f) =
    done (ok (IntentFeature.unwrap (normalize_unwrap c f)))
normalize_feature c (IntentFeature.thread f) =
    normalize_thread c f >>> λ g. done (ok (IntentFeature.thread g))
normalize_feature c (IntentFeature.hole f) =
    normalize_hole c f >>> λ g. done (ok (IntentFeature.hole g))
normalize_feature c (IntentFeature.fillet f) =
    normalize_fillet c f >>> λ g. done (ok (IntentFeature.fillet g))
normalize_feature c (IntentFeature.variable_fillet f) =
    normalize_variable_fillet c f >>> λ g. done (ok (IntentFeature.variable_fillet g))
normalize_feature c (IntentFeature.chamfer f) =
    normalize_chamfer c f >>> λ g. done (ok (IntentFeature.chamfer g))
normalize_feature c (IntentFeature.variable_chamfer f) =
    normalize_variable_chamfer c f >>> λ g. done (ok (IntentFeature.variable_chamfer g))
normalize_feature c (IntentFeature.boolean_op f) =
    done (ok (IntentFeature.boolean_op (normalize_boolean_op c f)))
normalize_feature c (IntentFeature.pattern_linear f) =
    normalize_pattern_linear c f >>> λ g. done (ok (IntentFeature.pattern_linear g))
normalize_feature c (IntentFeature.pattern_circular f) =
    normalize_pattern_circular c f >>> λ g. done (ok (IntentFeature.pattern_circular g))
