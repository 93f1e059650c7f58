-- ===== src/Normalize/Selectors.antt =====
-- src/selectors.ts: `normalizeSelector`.
use trueform.Base.{Option, none, some, List, [], ◌∷◌, ◌++◌, if◌then◌else◌}
use trueform.Base.Text.{Str}
use trueform.Base.JsMap.{has}
use trueform.Base.Numbers.{Numbers}
use trueform.Base.JsMap.{JsMap}
use trueform.Base.Outcome.{Outcome}
use trueform.Ir.Scalars.{LengthUnit}
use trueform.Ir.Selectors.{
  Predicate, Selector, selector_face, selector_edge, selector_solid, selector_named, RankRule,
  Rules, no_rules, rule, PlaneRef, on_selector, plane_datum,
}
use trueform.Ir.Sketches.{SketchEntity, SketchConstraint}
use trueform.Params.Expressions.{ParamValue}

-- A field that may be missing.
unfoldable pub map? : {A B : Type 0} → (A → B) → Option A → Option B
map? f none = none
map? f (some a) = some (f a)

-- What a normalization works with: the numbers, the values of the parameters, the units of the
-- document, JSON.stringify of a predicate and of a rule, and `solveSketchConstraints` for a sketch's id,
-- its entities and constraints.
pub record Normalizing (N : Type 0) : Type 0 where
  pub num : Numbers N
  pub values : JsMap (ParamValue N)
  pub units : LengthUnit
  pub predicate_text : Predicate → Str
  pub rule_text : RankRule → Str
  pub solve :
      Str → List (SketchEntity N) → List (SketchConstraint N) → Outcome (List (SketchEntity N))

module _ {N : Type 0} (c : Normalizing N) where
  -- The loop of `normalizePredicates`; `seen` are the texts of the predicates that are kept.
  unfoldable pub normalize_predicates : List Str → List Predicate → List Predicate
  unfolding has
  normalize_predicates seen [] = []
  normalize_predicates seen (p ∷ ps) =
      let skipped = normalize_predicates seen ps in
      let kept = p ∷ normalize_predicates (seen ++ c.predicate_text p ∷ []) ps in
      if has (c.predicate_text p) seen then skipped else kept

  unfoldable pub normalize_rank : List Str → Rules → Rules
  unfolding has
  normalize_rank seen no_rules = no_rules
  normalize_rank seen (rule r rules) =
      let skipped = normalize_rank seen rules in
      let kept = rule r (normalize_rank (seen ++ c.rule_text r ∷ []) rules) in
      if has (c.rule_text r) seen then skipped else kept

  unfoldable pub normalize_selector : Selector → Selector
  unfolding normalize_predicates normalize_rank
  normalize_selector (selector_face predicates rank) =
      selector_face (normalize_predicates [] predicates) (normalize_rank [] rank)
  normalize_selector (selector_edge predicates rank) =
      selector_edge (normalize_predicates [] predicates) (normalize_rank [] rank)
  normalize_selector (selector_solid predicates rank) =
      selector_solid (normalize_predicates [] predicates) (normalize_rank [] rank)
  normalize_selector (selector_named name) = selector_named name

  -- A datum of a plane is no selector.
  unfoldable pub plane_or_datum : PlaneRef → PlaneRef
  unfolding normalize_selector
  plane_or_datum (on_selector s) = on_selector (normalize_selector s)
  plane_or_datum (plane_datum ref) = plane_datum ref
