-- ===== src/Normalize/Staging.antt =====
-- src/ir_normalize.ts: the policy on features that are being staged.
use trueform.Base.{
  ◌≡◌, ◌≢◌, refl, ap, Option, some, List, [], ◌∷◌, map, All, subst, Bool-cases, inl, inr,
}
use trueform.Base.Text.{Str, ◌==◌}
use trueform.Base.JsMap.{JsMap, put}
use trueform.Base.Outcome.{ok}
use trueform.Ir.Scalars.{LengthUnit, mm, Scalar}
use trueform.Ir.Features.{IntentFeature, base_of}
use trueform.Ir.Parts.{IntentPart}
use trueform.Params.Expressions.{done}
use trueform.Prepare.Stages.{FeatureStage, stable, staging, StageOfFeature, get_feature_stage}
use trueform.Normalize.Selectors.{Normalizing}
use trueform.Normalize.Scalars.{each}
use trueform.Normalize.Features.{normalize_feature}
use trueform.Normalize.Numeric.{Yields, Yields->>>, Yields-ok}
use trueform.Normalize.Numeric.Scalars.{Any, Yields-Any}
use trueform.Normalize.Parts.{
  Bucket, add_staged, group_staged, refuse_staged, Normalizer, normalizing_with, normalize_with,
  normalize_part, enforce_staged_feature_policy, StagedFeatures, allow, error, or_else,
}
use trueform.Normalize.Corresponding.{
  normalize_part-Yields, normalized_part-SameFeatures, SameFeatures,
}

pub put_not_empty {ℓ} : {V : Type ℓ} (k : Str) (v : V) (m : JsMap V) → put k v m ≢ []
unfolding put
put_not_empty k v [] e = cc
put_not_empty k v ((j, w) ∷ m) e = elim (Bool-cases (j == k)) [
  | inl same ↦ let e' = rw same at e in cc
  | inr other ↦ let e' = rw other at e in cc
]

add_staged_empty :
    (id : Str) (entry : StageOfFeature) (stage : FeatureStage) (m : JsMap Bucket)
    → add_staged id entry stage m ≡ []
    → (m ≡ []) × (stage ≡ stable)
add_staged_empty id entry stable m e = (e, refl)
add_staged_empty id entry staging m e = absurd (put_not_empty entry.key _ m e)

abbrev pub IsStable : StageOfFeature → Type 0
IsStable s = s.stage ≡ stable

-- No group, so no feature of the list is being staged.
group_staged_empty :
    {N : Type 0} (fs : List (IntentFeature N)) (m : JsMap Bucket)
    → group_staged fs m ≡ []
    → (m ≡ []) × All IsStable (map get_feature_stage fs)
unfolding group_staged
group_staged_empty [] m e = (e, tt)
group_staged_empty (f ∷ fs) m e =
    let (before, stables) = group_staged_empty fs _ e in
    let (empty, here) =
      add_staged_empty (base_of f).id (get_feature_stage f) (get_feature_stage f).stage m before in
    (empty, (here, stables))

refuse_staged-Yields :
    {N : Type 0} (id : Str) (fs : List (IntentFeature N)) (m : JsMap Bucket)
    → group_staged fs [] ≡ m
    → Yields (λ u. All IsStable (map get_feature_stage fs)) (done (refuse_staged id m))
unfolding Yields
refuse_staged-Yields id fs [] e = (group_staged_empty fs [] e).1
refuse_staged-Yields id fs (d ∷ ds) e = tt

enforce-Yields :
    {N : Type 0} (id : Str) (fs : List (IntentFeature N)) (policy : StagedFeatures)
    → policy ≡ error
    → Yields
        (λ u. All IsStable (map get_feature_stage fs))
        (done (enforce_staged_feature_policy id fs policy))
unfolding enforce_staged_feature_policy
enforce-Yields id fs policy e = rw e (refuse_staged-Yields id fs (group_staged fs []) refl)

abbrev pub AllStable : {N : Type 0} → IntentPart N → Type 0
AllStable part = All IsStable (map get_feature_stage part.features)

normalize_with-AllStable :
    {N : Type 0} (z : Normalizer N) (c : Normalizing N) (part : IntentPart N)
    → z.staged_features ≡ some error
    → Yields AllStable (normalize_with z c part)
unfolding Yields normalize_with
normalize_with-AllStable z c part e =
    Yields->>> Any AllStable (each (normalize_feature c) part.features) _
      (Yields-Any (each (normalize_feature c) part.features))
      (λ fs fs_h.
        Yields->>> (λ u. All IsStable (map get_feature_stage fs)) AllStable
          (done (enforce_staged_feature_policy part.id fs (or_else allow z.staged_features))) _
          (enforce-Yields part.id fs (or_else allow z.staged_features) (ap (or_else allow) e))
          (λ u u_h. u_h))

-- When the policy on staged features is `error`, a part that is normalized has no feature that is
-- still being staged.
pub error_policy_refuses_staged :
    {N : Type 0} (z : Normalizer N) (part n : IntentPart N) (overrides : JsMap (Scalar N))
    (units : Option LengthUnit)
    → z.staged_features ≡ some error
    → normalize_part z part overrides units ≡ done (ok n)
    → All IsStable (map get_feature_stage part.features)
unfolding SameFeatures
error_policy_refuses_staged z part n overrides units policy e =
    let same = normalized_part-SameFeatures z part n overrides units e in
    subst (All IsStable) (same.4) (
      Yields-ok AllStable (normalize_part z part overrides units) n
        (normalize_part-Yields AllStable z part overrides units (λ values.
          normalize_with-AllStable z (normalizing_with z (or_else mm units) values) part policy))
        e)
