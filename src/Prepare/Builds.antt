-- ===== src/Prepare/Builds.antt =====
-- src/part_preparation.ts with src/executor.ts and src/compiler.ts: prepared parts are built and
-- compiled.
use trueform.Base.{ℕ, ◌≡◌, inl, inr, Option, some, List, [], ◌∷◌, All, Bool-cases, drop, zero, suc}
use trueform.Base.Text.{Str}
use trueform.Base.JsMap.{JsMap, get}
use trueform.Base.Value.{Fields}
use trueform.Base.Outcome.{Outcome}
use trueform.Kernel.{KernelResult, BackendCapabilities}
use trueform.Ir.Features.{IntentFeature}
use trueform.Ir.Parts.{IntentPart}
use trueform.Execute.Plan.{Incremental, create_incremental_plan}
use trueform.Execute.Build.{
  missing_feature, Result, err, ok, Attempt, returns, throws, build_part, build_from, build_feature,
  finalize_build_result, Progress, ◌>>=◌, supports, executed,
}
use trueform.Prepare.{PreparedPart, prepare_normalized_part}
use trueform.Prepare.Complete.{HaveFeatures, prepared_part-IsComplete}

All-drop {ℓ κ} : {A : Type ℓ} (P : A → Type κ) (n : ℕ) (xs : List A) → All P xs → All P (drop n xs)
All-drop P zero xs h = h
All-drop P (suc n) [] h = tt
All-drop P (suc n) (x ∷ xs) h = All-drop P n xs h.1

-- A result other than the error of a feature that the map does not have.
abbrev pub NotMissing {ℓ} : {N : Type 0} {A : Type ℓ} → Result N A → Type 0
NotMissing (ok a) = Unit
NotMissing (err (missing_feature id)) = ⊥
NotMissing (err e) = Unit

NotMissing->>= {ℓ κ} :
    {N : Type 0} {A : Type ℓ} {B : Type κ} (r : Result N A) (f : A → Result N B)
    → NotMissing r
    → ((a : A) → NotMissing (f a))
    → NotMissing (r >>= f)
NotMissing->>= (ok a) f h k = k a
NotMissing->>= (err e) f h k = h

module _ {N : Type 0} (kind : IntentFeature N → Str) (caps : Option BackendCapabilities)
    (execute : IntentFeature N → KernelResult N → Attempt N (KernelResult N)) where
  executed-NotMissing :
      (id : Str) (p : Progress N) (a : Attempt N (KernelResult N))
      → NotMissing (executed kind caps execute id p a)
  executed-NotMissing id p (returns r) = tt
  executed-NotMissing id p (throws e) = tt

  build_feature-NotMissing :
      (id : Str) (f : IntentFeature N) (p : Progress N)
      → NotMissing (build_feature kind caps execute id (some f) p)
  build_feature-NotMissing id f p = elim (Bool-cases (supports caps (kind f))) [
    | inl can ↦ rw can (executed-NotMissing id p (execute f p.current))
    | inr cannot ↦ rw cannot tt
  ]

  build_from-NotMissing :
      (features : JsMap (IntentFeature N)) (ids : List Str) (p : Progress N)
      → HaveFeatures features ids
      → NotMissing (build_from kind caps execute features ids p)
  unfolding build_from
  build_from-NotMissing features [] p h = tt
  build_from-NotMissing features (id ∷ ids) p ((f, found, own), h) =
      NotMissing->>= (build_feature kind caps execute id (get id features) p)
        (build_from kind caps execute features ids) (rw found (build_feature-NotMissing id f p))
        (λ q. build_from-NotMissing features ids q h)

  -- A build of a prepared part, full or incremental from any earlier result, does not fail for want of
  -- a feature: what it throws comes from the backend, or is a kind that the backend does not support.
  pub prepared_build_finds_features :
      (number_text : N → Str) (fields_of : IntentFeature N → Fields N) (part : IntentPart N)
      (p : PreparedPart N) (incremental : Option (Incremental N))
      → prepare_normalized_part number_text fields_of part ≡ Outcome.ok p
      → NotMissing (
          build_part kind caps execute p.normalized.id p.feature_order p.graph p.feature_hashes
            p.feature_by_id incremental)
  unfolding build_part
  prepared_build_finds_features number_text fields_of part p incremental e =
      let plan =
        create_incremental_plan p.normalized.id p.feature_order p.graph p.feature_hashes
          incremental in
      NotMissing->>=
        (build_from kind caps execute p.feature_by_id (drop plan.start_index p.feature_order)
          (record { current = plan.base_state; steps = plan.base_steps }))
        (λ q. ok (finalize_build_result p.normalized.id p.feature_order p.feature_hashes plan q))
        (build_from-NotMissing p.feature_by_id (drop plan.start_index p.feature_order) _ (
          All-drop _ plan.start_index p.feature_order
            (prepared_part-IsComplete number_text fields_of part p e).1))
        (λ q. tt)
