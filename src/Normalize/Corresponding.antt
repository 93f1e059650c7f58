-- ===== src/Normalize/Corresponding.antt =====
-- src/ir_normalize.ts: a normalized part has the features of its source, with numbers.
use trueform.Base.{◌≡◌, refl, Option, List, [], ◌∷◌, map, All}
use trueform.Base.JsMap.{JsMap}
use trueform.Base.Outcome.{ok}
use trueform.Ir.Scalars.{LengthUnit, mm, Scalar}
use trueform.Ir.Features.{IntentFeature, base_of}
use trueform.Ir.Parts.{IntentPart}
use trueform.Params.Expressions.{Run, done, ParamValue}
use trueform.Params.Context.{build_param_context}
use trueform.Prepare.Stages.{feature_kind, get_feature_stage, feature_stage_key}
use trueform.Normalize.Selectors.{Normalizing}
use trueform.Normalize.Scalars.{each}
use trueform.Normalize.Features.{normalize_feature}
use trueform.Normalize.Numeric.{Yields, Yields->>>, Yields-ok, each-Yields}
use trueform.Normalize.Numeric.Scalars.{Any, Yields-Any}
use trueform.Normalize.Numeric.Sketches.{SolvesNumbers}
use trueform.Normalize.Numeric.Features.{IsNumeric, normalize_feature-IsNumeric}
use trueform.Normalize.Numeric.Kept.{Keeps, normalize_feature-Keeps}
use trueform.Normalize.Parts.{
  Normalizer, normalizing_with, normalize_with, normalize_part, enforce_staged_feature_policy,
  allow, or_else,
}

-- The lists agree, place by place.
abbrev pub Pairs : {A B : Type 0} → (A → B → Type 0) → List A → List B → Type 0
Pairs R [] [] = Unit
Pairs R (x ∷ xs) (y ∷ ys) = R x y × Pairs R xs ys
Pairs R _ _ = ⊥

pub each-Pairs :
    {A B : Type 0} (R : A → B → Type 0) (f : A → Run B)
    → ((a : A) → Yields (R a) (f a))
    → (xs : List A) → Yields (Pairs R xs) (each f xs)
unfolding Yields each
each-Pairs R f h [] = tt
each-Pairs R f h (x ∷ xs) = Yields->>> (R x) (Pairs R (x ∷ xs)) (f x) _ (h x) (λ b b_h.
    Yields->>> (Pairs R xs) (Pairs R (x ∷ xs)) (each f xs) _ (each-Pairs R f h xs)
      (λ bs bs_h. (b_h, bs_h)))

-- A function that agrees on each pair agrees on the lists.
map-Pairs {κ} :
    {A : Type 0} {B : Type κ} (R : A → A → Type 0) (f : A → B)
    → ((x y : A) → R x y → f y ≡ f x)
    → (xs ys : List A) → Pairs R xs ys
    → map f ys ≡ map f xs
map-Pairs R f h [] [] p = refl
map-Pairs R f h (x ∷ xs) (y ∷ ys) p = rw (h x y p.0, map-Pairs R f h xs ys p.1) refl
map-Pairs R f h [] (y ∷ ys) p = absurd p
map-Pairs R f h (x ∷ xs) [] p = absurd p

stage-Keeps :
    {N : Type 0} (f g : IntentFeature N) → Keeps f g → get_feature_stage g ≡ get_feature_stage f
unfolding Keeps get_feature_stage feature_stage_key
stage-Keeps f g h = rw (h.1, h.2) refl

-- What a part keeps.
unfoldable pub SameFeatures : {N : Type 0} → IntentPart N → IntentPart N → Type 0
SameFeatures part n =
    (n.id ≡ part.id)
    × (n.params ≡ part.params)
    × (map base_of n.features ≡ map base_of part.features)
    × (map feature_kind n.features ≡ map feature_kind part.features)
    × (map get_feature_stage n.features ≡ map get_feature_stage part.features)

normalize_with-Yields :
    {N : Type 0} (z : Normalizer N) (c : Normalizing N) (part : IntentPart N)
    → Yields (SameFeatures part) (normalize_with z c part)
unfolding Yields SameFeatures normalize_with Keeps
normalize_with-Yields z c part =
    Yields->>> (Pairs Keeps part.features) (SameFeatures part)
      (each (normalize_feature c) part.features) _
      (each-Pairs Keeps (normalize_feature c) (normalize_feature-Keeps c) part.features)
      (λ fs fs_h.
        Yields->>> Any (SameFeatures part)
          (done (enforce_staged_feature_policy part.id fs (or_else allow z.staged_features))) _
          (Yields-Any
            (done (enforce_staged_feature_policy part.id fs (or_else allow z.staged_features))))
          (λ u u_h. (
            refl,
            refl,
            map-Pairs Keeps base_of (λ f g k. k.0) part.features fs fs_h,
            map-Pairs Keeps feature_kind (λ f g k. k.1) part.features fs fs_h,
            map-Pairs Keeps get_feature_stage stage-Keeps part.features fs fs_h,
          )))

-- What holds once the parameters have values holds of the whole normalization.
pub normalize_part-Yields :
    {N : Type 0} (P : IntentPart N → Type 0) (z : Normalizer N) (part : IntentPart N)
    (overrides : JsMap (Scalar N)) (units : Option LengthUnit)
    → ((values : JsMap (ParamValue N))
        → Yields P (normalize_with z (normalizing_with z (or_else mm units) values) part))
    → Yields P (normalize_part z part overrides units)
unfolding Yields normalize_part
normalize_part-Yields P z part overrides units h =
    Yields->>> Any P (done (z.validate part)) _ (Yields-Any (done (z.validate part))) (λ u u_h.
      Yields->>> Any P
        (build_param_context z.num (or_else [] part.params) overrides (or_else mm units)) _
        (Yields-Any
          (build_param_context z.num (or_else [] part.params) overrides (or_else mm units)))
        (λ values values_h. h values))

-- A normalized part has the id and the parameters of its source, and its features have, in the same
-- order, the ids, dependencies and tags, the kinds and the stages of the features of the source.
pub normalized_part-SameFeatures :
    {N : Type 0} (z : Normalizer N) (part n : IntentPart N) (overrides : JsMap (Scalar N))
    (units : Option LengthUnit)
    → normalize_part z part overrides units ≡ done (ok n)
    → SameFeatures part n
normalized_part-SameFeatures z part n overrides units e =
    Yields-ok (SameFeatures part) (normalize_part z part overrides units) n
      (normalize_part-Yields (SameFeatures part) z part overrides units
        (λ values. normalize_with-Yields z (normalizing_with z (or_else mm units) values) part))
      e

normalize_with-AllNumeric :
    {N : Type 0} (z : Normalizer N) (c : Normalizing N) (part : IntentPart N)
    → SolvesNumbers c
    → Yields (λ (n : IntentPart N). All IsNumeric n.features) (normalize_with z c part)
unfolding Yields normalize_with
normalize_with-AllNumeric {N} z c part solves =
    Yields->>> (All IsNumeric) (λ (n : IntentPart N). All IsNumeric n.features)
      (each (normalize_feature c) part.features) _
      (each-Yields IsNumeric (normalize_feature c) (λ f. normalize_feature-IsNumeric c f solves)
        part.features)
      (λ fs fs_h.
        Yields->>> Any (λ (n : IntentPart N). All IsNumeric n.features)
          (done (enforce_staged_feature_policy part.id fs (or_else allow z.staged_features))) _
          (Yields-Any
            (done (enforce_staged_feature_policy part.id fs (or_else allow z.staged_features))))
          (λ u u_h. fs_h))

-- With a solver of sketches that returns numbers when it is given numbers, every length, angle and
-- count of every feature of a normalized part is a number: no expression is left.
pub normalized_part-IsNumeric :
    {N : Type 0} (z : Normalizer N) (part n : IntentPart N) (overrides : JsMap (Scalar N))
    (units : Option LengthUnit)
    → ((values : JsMap (ParamValue N))
        → SolvesNumbers (normalizing_with z (or_else mm units) values))
    → normalize_part z part overrides units ≡ done (ok n)
    → All IsNumeric n.features
normalized_part-IsNumeric {N} z part n overrides units solves e =
    Yields-ok (λ (p : IntentPart N). All IsNumeric p.features)
      (normalize_part z part overrides units) n
      (normalize_part-Yields (λ (p : IntentPart N). All IsNumeric p.features) z part overrides units
        (λ values.
          normalize_with-AllNumeric z (normalizing_with z (or_else mm units) values) part
            (solves values)))
      e
