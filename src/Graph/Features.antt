-- ===== src/Graph/Features.antt =====
-- src/graph.ts: what the graph reads of a feature, and the indexes of a part.
use trueform.Base.{Bool, true, false, Option, none, some, List, [], ◌∷◌, map, foldl}
use trueform.Base.Text.{Str}
use trueform.Base.JsMap.{JsMap, get, put}
use trueform.Base.Outcome.{profile_duplicate, output_duplicate, Outcome, ok, err, ◌>>=◌}
use trueform.Ir.Selectors.{Selector, PlaneRef, on_selector, plane_datum}
use trueform.Ir.Sketches.{SketchProfile}
use trueform.Ir.Features.{
  IntentFeature, base_of, datum_frame, datum_plane, sketch2d, extrude, plane, surface, revolve,
  loft, sweep, shell, pipe, pipe_sweep, hex_tube_sweep, mirror, replace_face, move_body, move_face,
  delete_face, split_body, split_face, trim_surface, extend_surface, knit, curve_intersect, draft,
  thicken, unwrap, thread, hole, fillet, variable_fillet, chamfer, variable_chamfer, boolean_op,
  pattern_linear, pattern_circular,
}

-- A string is falsy if it is empty.
abbrev pub truthy : Option Str → Option Str
truthy none = none
truthy (some []) = none
truthy (some (c ∷ s)) = some (c ∷ s)

abbrev pub plane_selectors : Option PlaneRef → List Selector
plane_selectors none = []
plane_selectors (some (on_selector s)) = s ∷ []
plane_selectors (some (plane_datum ref)) = []

abbrev pub or_none : Option (List Selector) → List Selector
or_none none = []
or_none (some faces) = faces

abbrev pub and_source : Selector → Option Selector → List Selector
and_source origin none = origin ∷ []
and_source origin (some source) = origin ∷ source ∷ []

abbrev pub add_profile : Option Str → Str → Str → JsMap Str → Outcome (JsMap Str)
add_profile none name id index = ok (put name id index)
add_profile (some existing) name id index = err (profile_duplicate name existing id)

abbrev pub add_output : Option Str → Str → Str → JsMap Str → Outcome (JsMap Str)
add_output none result id index = ok (put result id index)
add_output (some existing) result id index = err (output_duplicate result existing id)

abbrev pub index_output : Option Str → Str → JsMap Str → Outcome (JsMap Str)
index_output none id index = ok index
index_output (some result) id index = add_output (truthy (get result index)) result id index

module _ {N : Type 0} where
  -- new Map(features.map((f) => [f.id, f]))
  unfoldable pub features_by_id : List (IntentFeature N) → JsMap (IntentFeature N)
  features_by_id features = foldl (λ m f. put (base_of f).id f m) [] features

  -- The optional result of some features is read as it is.
  unfoldable pub feature_result_name : IntentFeature N → Option Str
  feature_result_name (extrude f) = some f.result
  feature_result_name (plane f) = some f.result
  feature_result_name (surface f) = some f.result
  feature_result_name (revolve f) = some f.result
  feature_result_name (loft f) = some f.result
  feature_result_name (sweep f) = some f.result
  feature_result_name (pipe f) = some f.result
  feature_result_name (pipe_sweep f) = some f.result
  feature_result_name (hex_tube_sweep f) = some f.result
  feature_result_name (mirror f) = some f.result
  feature_result_name (delete_face f) = some f.result
  feature_result_name (replace_face f) = some f.result
  feature_result_name (move_face f) = some f.result
  feature_result_name (move_body f) = some f.result
  feature_result_name (split_body f) = some f.result
  feature_result_name (split_face f) = some f.result
  feature_result_name (trim_surface f) = some f.result
  feature_result_name (extend_surface f) = some f.result
  feature_result_name (knit f) = some f.result
  feature_result_name (curve_intersect f) = some f.result
  feature_result_name (draft f) = some f.result
  feature_result_name (shell f) = some f.result
  feature_result_name (thicken f) = some f.result
  feature_result_name (unwrap f) = some f.result
  feature_result_name (thread f) = some f.result
  feature_result_name (hole f) = f.result
  feature_result_name (fillet f) = f.result
  feature_result_name (chamfer f) = f.result
  feature_result_name (variable_fillet f) = some f.result
  feature_result_name (variable_chamfer f) = some f.result
  feature_result_name (boolean_op f) = some f.result
  feature_result_name (pattern_linear f) = f.result
  feature_result_name (pattern_circular f) = f.result
  feature_result_name _ = none

  unfoldable pub feature_selectors : IntentFeature N → List Selector
  feature_selectors (datum_frame f) = f.on ∷ []
  feature_selectors (sketch2d f) = plane_selectors f.plane
  feature_selectors (plane f) = plane_selectors f.plane
  feature_selectors (hole f) = f.on_face ∷ []
  feature_selectors (fillet f) = f.edges ∷ []
  feature_selectors (chamfer f) = f.edges ∷ []
  feature_selectors (boolean_op f) = f.left ∷ f.right ∷ []
  feature_selectors (mirror f) = f.source ∷ []
  feature_selectors (delete_face f) = f.source ∷ f.faces ∷ []
  feature_selectors (replace_face f) = f.source ∷ f.faces ∷ f.tool ∷ []
  feature_selectors (move_face f) = f.source ∷ f.faces ∷ []
  feature_selectors (move_body f) = f.source ∷ []
  feature_selectors (split_body f) = f.source ∷ f.tool ∷ []
  feature_selectors (split_face f) = f.faces ∷ f.tool ∷ []
  feature_selectors (trim_surface f) = f.source ∷ f.tools
  feature_selectors (extend_surface f) = f.source ∷ f.edges ∷ []
  feature_selectors (knit f) = f.sources
  feature_selectors (curve_intersect f) = f.first ∷ f.second ∷ []
  feature_selectors (draft f) = f.source ∷ f.faces ∷ []
  feature_selectors (shell f) = f.source ∷ or_none f.open_faces
  feature_selectors (thicken f) = f.surface ∷ []
  feature_selectors (unwrap f) = f.source ∷ []
  feature_selectors (variable_fillet f) = f.source ∷ map (λ e. e.edge) f.entries
  feature_selectors (variable_chamfer f) = f.source ∷ map (λ e. e.edge) f.entries
  feature_selectors (pattern_linear f) = and_source f.origin f.source
  feature_selectors (pattern_circular f) = and_source f.origin f.source
  feature_selectors _ = []

  abbrev pub index_profiles : Str → List (SketchProfile N) → JsMap Str → Outcome (JsMap Str)
  index_profiles id [] index = ok index
  index_profiles id (p ∷ ps) index =
      add_profile (truthy (get p.name index)) p.name id index >>= λ grown.
      index_profiles id ps grown

  abbrev pub index_feature_profiles : IntentFeature N → JsMap Str → Outcome (JsMap Str)
  index_feature_profiles (sketch2d f) index = index_profiles f.base.id f.profiles index
  index_feature_profiles _ index = ok index

  -- buildProfileIndex, from an index that is begun
  unfoldable pub build_profile_index : List (IntentFeature N) → JsMap Str → Outcome (JsMap Str)
  build_profile_index [] index = ok index
  build_profile_index (f ∷ fs) index =
      index_feature_profiles f index >>= λ grown. build_profile_index fs grown

  -- buildOutputIndex, from an index that is begun
  unfoldable pub build_output_index : List (IntentFeature N) → JsMap Str → Outcome (JsMap Str)
  unfolding feature_result_name
  build_output_index [] index = ok index
  build_output_index (f ∷ fs) index =
      index_output (truthy (feature_result_name f)) (base_of f).id index >>= λ grown.
      build_output_index fs grown

  abbrev pub is_plane_or_frame : Option (IntentFeature N) → Bool
  is_plane_or_frame (some (datum_plane f)) = true
  is_plane_or_frame (some (datum_frame f)) = true
  is_plane_or_frame _ = false
