-- ===== src/Graph/Selecting.antt =====
-- src/graph.ts: `selectorDependencies`, and what a named selector refers to.
use trueform.Base.{
  eqb, Bool, true, false, not, ◌&&◌, ◌||◌, Option, none, some, List, [], ◌∷◌, if◌then◌else◌,
}
use trueform.Base.Text.{Str, codes, ◌==◌}
use trueform.Base.JsMap.{JsMap, get, add, keys}
use trueform.Base.Strings.{trim}
use trueform.Base.Outcome.{
  selector_legacy_numeric_unsupported, selector_named_missing, pred_created_by_missing, Outcome, ok,
  err, ◌>>=◌,
}
use trueform.Ir.Selectors.{
  Selector, selector_face, selector_edge, selector_solid, selector_named, RankRule, closest_to,
  max_area, min_z, max_z, Rules, no_rules, rule, Predicate, pred_created_by,
}
use trueform.Ir.Features.{IntentFeature, base_of, sketch2d, plane}
use trueform.Graph.References.{
  is_empty_text, parse_named_selector_references, is_implicit_selection_reference,
  is_legacy_transient_selection_reference, parse_stable_selection_reference, StableReference,
  normalize_selection_reference_token, is_canonical_plane_alias,
}
use trueform.Graph.Features.{truthy, is_plane_or_frame}
use trueform.Graph.Inference.{add_all}

-- `exact`: the text after a prefix, in its own case.
abbrev pub after_exact : Str → Str → Option Str
after_exact [] s = some s
after_exact (p ∷ ps) [] = none
after_exact (p ∷ ps) (c ∷ s) = let rest = after_exact ps s in if eqb c p then rest else none

abbrev pub or_self : Option Str → Str → Str
or_self none s = s
or_self (some t) s = t

-- What a selector depends on, and whether anything anchors it.
pub record SelectorDeps : Type 0 where
  pub deps : List Str
  pub anchored : Bool

abbrev pub anchor : Str → SelectorDeps → SelectorDeps
anchor dep d = record { deps = add dep d.deps; anchored = true }

module _ {N : Type 0} (by_id : JsMap (IntentFeature N)) where
  abbrev pub same_token : Str → List Str → Option Str
  same_token target [] = none
  same_token target (id ∷ ids) =
      let rest = same_token target ids in
      if normalize_selection_reference_token id == target then some id else rest

  abbrev pub id_or : Option (IntentFeature N) → Option Str → Option Str
  id_or none o = o
  id_or (some f) o = some (base_of f).id

  abbrev pub resolve_reference : Option StableReference → Option Str
  resolve_reference none = none
  resolve_reference (some r) =
      id_or (get r.created_by_token by_id)
        (same_token (normalize_selection_reference_token r.created_by_token) (keys by_id))

  unfoldable pub resolve_stable_selection_dependency : Str → Option Str
  resolve_stable_selection_dependency value =
      resolve_reference (parse_stable_selection_reference value)

  -- `resolveFeaturePlaneNamedReference`: none if it is not accepted, and else the dependency, if any.
  abbrev pub plane_reference : Str → Option (Option Str)
  plane_reference [] = none
  plane_reference (c ∷ s) =
      let datum_id = or_self (after_exact (codes "datum:") (c ∷ s)) (c ∷ s) in
      if is_canonical_plane_alias (c ∷ s)
      then some none
      else if not (is_empty_text datum_id) && is_plane_or_frame (get datum_id by_id)
      then some (some datum_id)
      else none

  unfoldable pub resolve_feature_plane_named_reference : IntentFeature N → Str → Option (Option Str)
  unfolding is_canonical_plane_alias
  resolve_feature_plane_named_reference (plane f) name = plane_reference (trim name)
  resolve_feature_plane_named_reference _ name = none

  abbrev pub accept_plane : Str → Str → Option (Option Str) → SelectorDeps → Outcome SelectorDeps
  accept_plane id name none d = err (selector_named_missing id name)
  accept_plane id name (some none) d = ok (record d { anchored = true })
  accept_plane id name (some (some dep)) d = ok (anchor dep d)

  abbrev pub is_sketch : IntentFeature N → Bool
  is_sketch (sketch2d f) = true
  is_sketch _ = false

  -- What a name means that is neither an output nor a stable reference.
  abbrev pub other_name : IntentFeature N → Str → SelectorDeps → Outcome SelectorDeps
  other_name f name d =
      if is_legacy_transient_selection_reference name
      then err (selector_legacy_numeric_unsupported (base_of f).id name)
      else if is_implicit_selection_reference name
      then ok (if is_sketch f then d else record d { anchored = true })
      else accept_plane (base_of f).id name (resolve_feature_plane_named_reference f name) d

  abbrev pub stable_or_other :
      IntentFeature N → Str → Option Str → SelectorDeps → Outcome SelectorDeps
  stable_or_other f name none d = other_name f name d
  stable_or_other f name (some dep) d = ok (anchor dep d)

  abbrev pub output_or_other :
      IntentFeature N → Str → Option Str → SelectorDeps → Outcome SelectorDeps
  output_or_other f name none d =
      stable_or_other f name (truthy (resolve_stable_selection_dependency name)) d
  output_or_other f name (some dep) d = ok (anchor dep d)

  unfoldable pub named_dependencies :
      IntentFeature N → JsMap Str → List Str → SelectorDeps → Outcome SelectorDeps
  named_dependencies f outputs [] d = ok d
  named_dependencies f outputs (name ∷ names) d =
      output_or_other f name (truthy (get name outputs)) d >>= named_dependencies f outputs names

  abbrev pub add_creator :
      IntentFeature N → Str → Option (IntentFeature N) → SelectorDeps → Outcome SelectorDeps
  add_creator f ref none d = err (pred_created_by_missing (base_of f).id ref)
  add_creator f ref (some hit) d = ok (anchor ref d)

  unfoldable pub predicate_dependencies :
      IntentFeature N → List Predicate → SelectorDeps → Outcome SelectorDeps
  predicate_dependencies f [] d = ok d
  predicate_dependencies f (pred_created_by ref ∷ ps) d =
      add_creator f ref (get ref by_id) d >>= predicate_dependencies f ps
  predicate_dependencies f (_ ∷ ps) d = predicate_dependencies f ps d

abbrev pub nothing_yet : SelectorDeps
nothing_yet = record { deps = []; anchored = false }

abbrev pub join : SelectorDeps → SelectorDeps → SelectorDeps
join d nested = record {
  deps = add_all nested.deps d.deps;
  anchored = d.anchored || nested.anchored;
}

-- `selectorDependencies`; a selector that ranks by distance nests another.
unfoldable mutual
  pub selector_dependencies :
      {N : Type 0}
      → JsMap (IntentFeature N)
      → JsMap Str
      → IntentFeature N
      → Selector
      → Outcome SelectorDeps
  selector_dependencies by_id outputs f (selector_named name) =
      named_dependencies by_id f outputs (parse_named_selector_references name) nothing_yet
  selector_dependencies by_id outputs f (selector_face predicates rank) =
      predicate_dependencies by_id f predicates nothing_yet
      >>= rank_dependencies by_id outputs f rank
  selector_dependencies by_id outputs f (selector_edge predicates rank) =
      predicate_dependencies by_id f predicates nothing_yet
      >>= rank_dependencies by_id outputs f rank
  selector_dependencies by_id outputs f (selector_solid predicates rank) =
      predicate_dependencies by_id f predicates nothing_yet
      >>= rank_dependencies by_id outputs f rank

  pub rank_dependencies :
      {N : Type 0}
      → JsMap (IntentFeature N)
      → JsMap Str
      → IntentFeature N
      → Rules
      → SelectorDeps
      → Outcome SelectorDeps
  rank_dependencies by_id outputs f no_rules d = ok d
  rank_dependencies by_id outputs f (rule r rules) d =
      rule_dependencies by_id outputs f r d >>= rank_dependencies by_id outputs f rules

  pub rule_dependencies :
      {N : Type 0}
      → JsMap (IntentFeature N)
      → JsMap Str
      → IntentFeature N
      → RankRule
      → SelectorDeps
      → Outcome SelectorDeps
  rule_dependencies by_id outputs f (closest_to target) d =
      selector_dependencies by_id outputs f target >>= λ nested. ok (join d nested)
  rule_dependencies by_id outputs f max_area d = ok d
  rule_dependencies by_id outputs f min_z d = ok d
  rule_dependencies by_id outputs f max_z d = ok d
