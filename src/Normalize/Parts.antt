-- ===== src/Normalize/Parts.antt =====
-- src/ir_normalize.ts: `normalizePart`, and the policy on features that are being staged.
use trueform.Base.{Bool, true, false, Option, none, some, List, [], ◌∷◌, ◌++◌, map, if◌then◌else◌}
use trueform.Base.Text.{Str}
use trueform.Base.JsMap.{JsMap, get, put}
use trueform.Base.Numbers.{Numbers}
use trueform.Base.Outcome.{
  Outcome, ok, err, validation_staged_feature, validation_staged_feature_policy,
}
use trueform.Ir.Scalars.{LengthUnit, mm, Scalar}
use trueform.Ir.Selectors.{Predicate, RankRule}
use trueform.Ir.Sketches.{SketchEntity, SketchConstraint}
use trueform.Ir.Features.{IntentFeature, base_of}
use trueform.Ir.Parts.{IntentPart, MateConnector}
use trueform.Params.Expressions.{Run, done, ◌>>>◌, ParamValue}
use trueform.Params.Context.{build_param_context}
use trueform.Prepare.Stages.{FeatureStage, stable, staging, StageOfFeature, get_feature_stage}
use trueform.Normalize.Selectors.{Normalizing, normalize_selector, map?}
use trueform.Normalize.Scalars.{each}
use trueform.Normalize.Features.{normalize_feature}

-- `options.stagedFeatures`, which JavaScript callers may set to any string.
pub data StagedFeatures : Type 0 where
  allow warn error : StagedFeatures
  unsupported : (policy : Str) → StagedFeatures

-- An entry of `byKey`: the ids of the features, and the notes.
abbrev pub Bucket : Type 0
Bucket = List Str × Option Str

-- `!notes`
abbrev pub is_blank : Option Str → Bool
is_blank none = true
is_blank (some []) = true
is_blank (some (u ∷ us)) = false

unfoldable pub bucket_with : Str → Option Str → Option Bucket → Bucket
bucket_with id notes none = (id ∷ [], notes)
bucket_with id notes (some bucket) = (
  bucket.0 ++ id ∷ [],
  if is_blank bucket.1 then (if is_blank notes then bucket.1 else notes) else bucket.1,
)

abbrev pub add_staged : Str → StageOfFeature → FeatureStage → JsMap Bucket → JsMap Bucket
add_staged id entry stable by_key = by_key
add_staged id entry staging by_key =
    put entry.key (bucket_with id entry.notes (get entry.key by_key)) by_key

-- The loop over the features whose stage is `staging`.
unfoldable pub group_staged : {N : Type 0} → List (IntentFeature N) → JsMap Bucket → JsMap Bucket
group_staged [] by_key = by_key
group_staged (f ∷ fs) by_key =
    group_staged fs
      (add_staged (base_of f).id (get_feature_stage f) (get_feature_stage f).stage by_key)

abbrev pub refuse_staged : Str → JsMap Bucket → Outcome (Unit {0})
refuse_staged part_id [] = ok tt
refuse_staged part_id (d ∷ ds) = err (validation_staged_feature part_id (d ∷ ds))

-- A warning is only printed.
unfoldable pub enforce_staged_feature_policy :
    {N : Type 0} → Str → List (IntentFeature N) → StagedFeatures → Outcome (Unit {0})
enforce_staged_feature_policy part_id features allow = ok tt
enforce_staged_feature_policy part_id features warn = ok tt
enforce_staged_feature_policy part_id features error =
    refuse_staged part_id (group_staged features [])
enforce_staged_feature_policy part_id features (unsupported policy) =
    err (validation_staged_feature_policy policy)

unfoldable pub normalize_connector : {N : Type 0} → Normalizing N → MateConnector → MateConnector
normalize_connector c connector = record connector {
  origin = normalize_selector c connector.origin;
}

-- What the parts are normalized with, before their parameters are known. `validate` is
-- `validatePart` where the options ask for it, and does nothing where they do not.
pub record Normalizer (N : Type 0) : Type 0 where
  pub num : Numbers N
  pub predicate_text : Predicate → Str
  pub rule_text : RankRule → Str
  pub solve :
      Str → List (SketchEntity N) → List (SketchConstraint N) → Outcome (List (SketchEntity N))
  pub validate : IntentPart N → Outcome (Unit {0})
  pub staged_features : Option StagedFeatures

abbrev pub or_else : {A : Type 0} → A → Option A → A
or_else a none = a
or_else a (some b) = b

unfoldable pub normalizing_with :
    {N : Type 0} → Normalizer N → LengthUnit → JsMap (ParamValue N) → Normalizing N
normalizing_with z units values = record {
  num = z.num;
  values = values;
  units = units;
  predicate_text = z.predicate_text;
  rule_text = z.rule_text;
  solve = z.solve;
}

-- The steps of `normalizePart` once the parameters have values.
unfoldable pub normalize_with :
    {N : Type 0} → Normalizer N → Normalizing N → IntentPart N → Run (IntentPart N)
normalize_with z c part = each (normalize_feature c) part.features >>> λ features.
    done (enforce_staged_feature_policy part.id features (or_else allow z.staged_features)) >>> λ _.
    done (
      ok (record part {
        features = features;
        connectors = map? (map (normalize_connector c)) part.connectors;
      }))

unfoldable pub normalize_part :
    {N : Type 0}
    → Normalizer N
    → IntentPart N
    → JsMap (Scalar N)
    → Option LengthUnit
    → Run (IntentPart N)
normalize_part z part overrides units = done (z.validate part) >>> λ _.
    build_param_context z.num (or_else [] part.params) overrides (or_else mm units) >>> λ values.
    normalize_with z (normalizing_with z (or_else mm units) values) part
