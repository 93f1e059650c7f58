-- ===== src/Normalize/Tests.antt =====
-- src/ir_normalize.ts: a part with an expression, and selectors with repeats.
use trueform.Base.{ℕ, zero, suc, ◌≡◌, refl, true, none, some, [], ◌∷◌, map, All, ap, sym, ◌∙◌}
use trueform.Base.Text.{Str, codes, ◌==◌}
use trueform.Base.JsMap.{JsMap, get, has}
use trueform.Base.Outcome.{ok, err, sketch_constraint_entities_required}
use trueform.Ir.Scalars.{
  AxisDirection, plus_x, minus_x, plus_y, minus_y, plus_z, minus_z, mm, inch, expr, literal, binary,
  plus, depth,
}
use trueform.Ir.Selectors.{
  Predicate, pred_planar, pred_normal, pred_created_by, pred_role, Selector, selector_face,
  selector_named, no_rules,
}
use trueform.Ir.Sketches.{profile_ref}
use trueform.Ir.Features.{IntentFeature, extrude, sketch2d}
use trueform.Ir.Parts.{IntentPart}
use trueform.Params.Expressions.{done, eval_expr, coerce_to_expected, ParamValue}
use trueform.Params.Context.{
  build_param_context, normalize_scalar, collect_defs, check_overrides, eval_all,
}
use trueform.Params.Tests.{naturals}
use trueform.Graph.Tests.{features, named, sketch, rounded}
use trueform.Prepare.Tests.{part_of}
use trueform.Prepare.Stages.{get_feature_stage, feature_stage_key, feature_kind, mode_of}
use trueform.Normalize.Selectors.{
  map?, Normalizing, normalize_selector, normalize_predicates, normalize_rank,
}
use trueform.Normalize.Parts.{
  error, Normalizer, normalizing_with, normalize_part, normalize_with,
  enforce_staged_feature_policy, group_staged,
}
use trueform.Normalize.Scalars.{each, optional, scalar, normalize_depth}
use trueform.Normalize.Features.{normalize_feature}
use trueform.Normalize.Details.{normalize_fillet}
use trueform.Normalize.Bodies.{normalize_extrude}
use trueform.Normalize.Sketches.{
  normalize_sketch2d, normalize_sketch_profile, normalize_profile, solved_entities,
  normalize_profile_ref,
}
use trueform.Normalize.Numeric.{Yields}
use trueform.Base.Value.{bool, str}
use trueform.Kernel.{face}
use trueform.Select.Context.{Selection}
use trueform.Select.Matching.{matching}
use trueform.Normalize.Numeric.Sketches.{SolvesNumbers}
use trueform.Normalize.Numeric.Features.{IsNumeric}
use trueform.Normalize.Corresponding.{
  SameFeatures, normalized_part-SameFeatures, normalized_part-IsNumeric,
}
use trueform.Normalize.Staging.{IsStable, error_policy_refuses_staged}
use trueform.Normalize.Repeats.{TextsDiffer, normalized_predicates_match}

abbrev axis_digit : AxisDirection → ℕ
axis_digit plus_x = 0
axis_digit minus_x = 1
axis_digit plus_y = 2
axis_digit minus_y = 3
axis_digit plus_z = 4
axis_digit minus_z = 5

abbrev digit_axis : ℕ → AxisDirection
digit_axis zero = plus_x
digit_axis (suc zero) = minus_x
digit_axis (suc (suc zero)) = plus_y
digit_axis (suc (suc (suc zero))) = minus_y
digit_axis (suc (suc (suc (suc zero)))) = plus_z
digit_axis _ = minus_z

abbrev text : Predicate → Str
text pred_planar = []
text (pred_normal d) = 0 ∷ axis_digit d ∷ []
text (pred_created_by id) = 1 ∷ id
text (pred_role value) = 2 ∷ value

abbrev read : Str → Predicate
read (zero ∷ d ∷ []) = pred_normal (digit_axis d)
read (suc zero ∷ id) = pred_created_by id
read (suc (suc zero) ∷ value) = pred_role value
read _ = pred_planar

digit_axis-axis_digit : (d : AxisDirection) → digit_axis (axis_digit d) ≡ d
digit_axis-axis_digit plus_x = refl
digit_axis-axis_digit minus_x = refl
digit_axis-axis_digit plus_y = refl
digit_axis-axis_digit minus_y = refl
digit_axis-axis_digit plus_z = refl
digit_axis-axis_digit minus_z = refl

read-text : (p : Predicate) → read (text p) ≡ p
read-text pred_planar = refl
read-text (pred_normal d) = ap pred_normal (digit_axis-axis_digit d)
read-text (pred_created_by id) = refl
read-text (pred_role value) = refl

abbrev pub normalizer : Normalizer ℕ
normalizer = record {
  num = naturals;
  predicate_text = text;
  rule_text = λ r. codes "rule";
  solve = λ id entities constraints. ok entities;
  validate = λ part. ok tt;
  staged_features = some error;
}

abbrev context : Normalizing ℕ
context = normalizing_with normalizer inch []

abbrev sum_of_lengths : IntentFeature ℕ
sum_of_lengths = extrude (record {
  base = named (codes "ex");
  profile = profile_ref (codes "outline");
  depth = depth (expr (binary plus (literal 1 none) (literal 2 none)));
  result = codes "body";
  axis = none;
  mode = none;
})

abbrev pub source : IntentPart ℕ
source = part_of (rounded (selector_named (codes "body")) ∷ sketch ∷ sum_of_lengths ∷ [])

pub source_normalized : normalize_part normalizer source [] none ≡ done (ok (part_of features))
unfolding normalize_part build_param_context normalize_with each normalize_feature normalize_fillet
    scalar normalize_sketch2d normalize_sketch_profile normalize_profile optional solved_entities
    normalize_extrude normalize_profile_ref normalize_depth enforce_staged_feature_policy
    group_staged get_feature_stage feature_stage_key feature_kind mode_of get has ◌==◌ collect_defs
    check_overrides eval_all normalize_scalar eval_expr coerce_to_expected normalizing_with
    normalize_selector map?
source_normalized = refl

solves : (values : JsMap (ParamValue ℕ)) → SolvesNumbers (normalizing_with normalizer mm values)
unfolding SolvesNumbers Yields normalizing_with
solves values id entities constraints h k = h

texts_differ : TextsDiffer context
unfolding normalizing_with
texts_differ p q e = sym (read-text p) ∙ ap read e ∙ read-text q

normalized_part-SameFeatures_example : SameFeatures source (part_of features)
normalized_part-SameFeatures_example =
    normalized_part-SameFeatures normalizer source (part_of features) [] none source_normalized

normalized_part-IsNumeric_example : All IsNumeric features
normalized_part-IsNumeric_example =
    normalized_part-IsNumeric normalizer source (part_of features) [] none solves source_normalized

error_policy_refuses_staged_example : All IsStable (map get_feature_stage source.features)
error_policy_refuses_staged_example =
    error_policy_refuses_staged normalizer source (part_of features) [] none refl source_normalized

abbrev repeated : Selector
repeated = selector_face (pred_planar ∷ pred_role (codes "top") ∷ pred_planar ∷ []) no_rules

once :
    normalize_selector context repeated
    ≡ selector_face (pred_planar ∷ pred_role (codes "top") ∷ []) no_rules
unfolding normalize_selector normalize_predicates normalize_rank has ◌==◌ normalizing_with
once = refl

abbrev top : Selection ℕ
top = record {
  id = codes "t";
  kind = face;
  meta = (codes "planar", bool true) ∷ (codes "role", str (codes "top")) ∷ [];
}

normalized_predicates_match_example :
    matching
      (λ s. true)
      (normalize_predicates context [] (pred_planar ∷ pred_planar ∷ []))
      (top ∷ [])
    ≡ matching (λ s. true) (pred_planar ∷ pred_planar ∷ []) (top ∷ [])
normalized_predicates_match_example =
    normalized_predicates_match context (λ s. true) (pred_planar ∷ pred_planar ∷ []) (top ∷ [])
      texts_differ

-- A sketch with constraints and no entities, and a staged feature under the policy `error`.
abbrev loose : IntentFeature ℕ
loose = sketch2d (record {
  base = named (codes "s");
  plane = none;
  origin = none;
  entities = none;
  constraints = some [];
  profiles = [];
})

loose_refused :
    normalize_part normalizer (part_of (loose ∷ [])) [] none
    ≡ done (err (sketch_constraint_entities_required (codes "s")))
unfolding normalize_part build_param_context normalize_with each normalize_feature
    normalize_sketch2d optional solved_entities collect_defs check_overrides eval_all
    normalizing_with
loose_refused = refl
