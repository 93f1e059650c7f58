-- ===== src/Graph/Inference.antt =====
-- src/graph.ts: the dependencies that a feature's profiles, pattern, planes and axes imply.
use trueform.Base.{Bool, true, false, Option, none, some, List, [], ◌∷◌, if◌then◌else◌}
use trueform.Base.Text.{Str}
use trueform.Base.JsMap.{JsMap, get, add}
use trueform.Base.Outcome.{
  profile_missing, pattern_missing, datum_plane_missing, datum_axis_missing, Outcome, ok, err,
  ◌>>=◌,
}
use trueform.Ir.Scalars.{AxisSpec, axis_datum, ExtrudeAxis, axis_spec}
use trueform.Ir.Selectors.{PlaneRef, plane_datum}
use trueform.Ir.Sketches.{ProfileRef, inline_profile, profile_ref}
use trueform.Ir.Details.{PatternRef, linear, circular}
use trueform.Ir.Features.{
  IntentFeature, base_of, datum_plane, datum_axis, sketch2d, extrude, plane, surface, revolve, loft,
  sweep, mirror, move_body, move_face, draft, thread, hole, pattern_linear, pattern_circular,
}
use trueform.Graph.Features.{truthy, is_plane_or_frame}

-- [...set].forEach((x) => target.add(x))
abbrev pub add_all : List Str → List Str → List Str
add_all [] target = target
add_all (x ∷ xs) target = add_all xs (add x target)

module _ {N : Type 0} (by_id : JsMap (IntentFeature N)) where
  abbrev pub add_hit : Str → Str → Option Str → List Str → Outcome (List Str)
  add_hit id name none deps = err (profile_missing id name)
  add_hit id name (some dep) deps = ok (add dep deps)

  abbrev pub add_profile_deps :
      Str → JsMap Str → List (ProfileRef N) → List Str → Outcome (List Str)
  add_profile_deps id index [] deps = ok deps
  add_profile_deps id index (inline_profile p ∷ refs) deps = add_profile_deps id index refs deps
  add_profile_deps id index (profile_ref name ∷ refs) deps =
      add_hit id name (truthy (get name index)) deps >>= λ more. add_profile_deps id index refs more

  abbrev pub profile_refs : IntentFeature N → List (ProfileRef N)
  profile_refs (extrude f) = f.profile ∷ []
  profile_refs (surface f) = f.profile ∷ []
  profile_refs (revolve f) = f.profile ∷ []
  profile_refs (sweep f) = f.profile ∷ []
  profile_refs (loft f) = f.profiles
  profile_refs _ = []

  unfoldable pub infer_profile_dependencies : IntentFeature N → JsMap Str → Outcome (List Str)
  infer_profile_dependencies f index = add_profile_deps (base_of f).id index (profile_refs f) []

  abbrev pub is_pattern : Option (IntentFeature N) → Bool
  is_pattern (some (pattern_linear f)) = true
  is_pattern (some (pattern_circular f)) = true
  is_pattern _ = false

  abbrev pub pattern_id : PatternRef → Str
  pattern_id (linear ref) = ref
  pattern_id (circular ref) = ref

  abbrev pub pattern_dep : Str → Option PatternRef → Outcome (Option Str)
  pattern_dep id none = ok none
  pattern_dep id (some p) =
      if is_pattern (get (pattern_id p) by_id)
      then ok (some (pattern_id p))
      else err (pattern_missing id (pattern_id p))

  unfoldable pub infer_pattern_dependency : IntentFeature N → Outcome (Option Str)
  infer_pattern_dependency (hole f) = pattern_dep f.base.id f.pattern
  infer_pattern_dependency _ = ok none

  abbrev pub is_datum_axis : Option (IntentFeature N) → Bool
  is_datum_axis (some (datum_axis f)) = true
  is_datum_axis _ = false

  abbrev pub add_plane_ref_dep : Str → Option PlaneRef → List Str → Outcome (List Str)
  add_plane_ref_dep id (some (plane_datum ref)) deps =
      if is_plane_or_frame (get ref by_id)
      then ok (add ref deps)
      else err (datum_plane_missing id ref)
  add_plane_ref_dep id _ deps = ok deps

  abbrev pub add_axis_spec_dep : Str → Option (AxisSpec N) → List Str → Outcome (List Str)
  add_axis_spec_dep id (some (axis_datum ref)) deps =
      if is_datum_axis (get ref by_id) then ok (add ref deps) else err (datum_axis_missing id ref)
  add_axis_spec_dep id _ deps = ok deps

  abbrev pub add_extrude_axis_dep : Str → Option (ExtrudeAxis N) → List Str → Outcome (List Str)
  add_extrude_axis_dep id (some (axis_spec axis)) deps = add_axis_spec_dep id (some axis) deps
  add_extrude_axis_dep id _ deps = ok deps

  unfoldable pub infer_datum_dependencies : IntentFeature N → Outcome (List Str)
  infer_datum_dependencies (datum_plane f) =
      add_axis_spec_dep f.base.id (some f.normal) [] >>= add_axis_spec_dep f.base.id f.x_axis
  infer_datum_dependencies (datum_axis f) = add_axis_spec_dep f.base.id (some f.direction) []
  infer_datum_dependencies (sketch2d f) = add_plane_ref_dep f.base.id f.plane []
  infer_datum_dependencies (extrude f) = add_extrude_axis_dep f.base.id f.axis []
  infer_datum_dependencies (plane f) = add_plane_ref_dep f.base.id f.plane []
  infer_datum_dependencies (sweep f) = add_plane_ref_dep f.base.id f.frame []
  infer_datum_dependencies (mirror f) = add_plane_ref_dep f.base.id (some f.plane) []
  infer_datum_dependencies (move_body f) = add_axis_spec_dep f.base.id f.rotation_axis []
  infer_datum_dependencies (move_face f) = add_axis_spec_dep f.base.id f.rotation_axis []
  infer_datum_dependencies (draft f) =
      add_plane_ref_dep f.base.id (some f.neutral_plane) []
      >>= add_axis_spec_dep f.base.id (some f.pull_direction)
  infer_datum_dependencies (thread f) = add_axis_spec_dep f.base.id (some f.axis) []
  infer_datum_dependencies _ = ok []
