-- ===== src/Compile.antt =====
-- src/part_preparation.ts and src/compiler.ts: a part from its source to the order of its features.
pub mod Orders
pub mod Documents
pub mod Keys
pub mod Tests
use trueform.Base.{Option, List, []}
use trueform.Base.Text.{Str}
use trueform.Base.JsMap.{JsMap}
use trueform.Base.Value.{Fields}
use trueform.Base.Outcome.{Outcome, ok}
use trueform.Ir.Scalars.{LengthUnit, Scalar}
use trueform.Ir.Features.{IntentFeature}
use trueform.Ir.Parts.{IntentPart}
use trueform.Params.Expressions.{Run, done, ◌>>>◌}
use trueform.Normalize.Parts.{Normalizer, normalize_part}
use trueform.Prepare.{PreparedPart, prepare_normalized_part, CompileResult, compile_prepared_part}

pub record CompiledPart : Type 0 where
  pub part_id : Str
  pub order : List Str
  pub hashes : JsMap Str

module _ {N : Type 0} (number_text : N → Str) (fields_of : IntentFeature N → Fields N)
    (z : Normalizer N) where
  unfoldable pub prepare_part :
      IntentPart N → JsMap (Scalar N) → Option LengthUnit → Run (PreparedPart N)
  unfolding normalize_part prepare_normalized_part
  prepare_part part overrides units = normalize_part z part overrides units >>> λ normalized.
      done (prepare_normalized_part number_text fields_of normalized)

  unfoldable pub compile_part :
      IntentPart N → JsMap (Scalar N) → Option LengthUnit → Run CompileResult
  unfolding prepare_part compile_prepared_part
  compile_part part overrides units = prepare_part part overrides units >>> λ prepared.
      done (ok (compile_prepared_part number_text fields_of prepared))

  unfoldable pub compile_part_with_hashes : IntentPart N → Option LengthUnit → Run CompiledPart
  unfolding prepare_part
  compile_part_with_hashes part units = prepare_part part [] units >>> λ prepared. done (
      ok (record {
        part_id = prepared.normalized.id;
        order = prepared.feature_order;
        hashes = prepared.feature_hashes;
      }))
