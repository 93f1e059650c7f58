-- ===== src/Compile/Keys.antt =====
-- src/build_cache.ts: the key of a part in a cache of builds.
use trueform.Base.{Option, none, some, List, []}
use trueform.Base.Text.{Str, codes}
use trueform.Base.JsMap.{JsMap}
use trueform.Base.Value.{Value, str, num, obj, Fields, end, field}
use trueform.Base.Outcome.{ok}
use trueform.Ir.Scalars.{LengthUnit, mm, cm, m, inch, Scalar, ParamDef}
use trueform.Ir.Features.{IntentFeature}
use trueform.Ir.Parts.{IntentPart}
use trueform.Ir.Documents.{BuildContext}
use trueform.Hash.{hash_value}
use trueform.Params.Expressions.{Run, done, ◌>>>◌}
use trueform.Normalize.Parts.{Normalizer, or_else}
use trueform.Prepare.{text_of}
use trueform.Compile.{prepare_part}

pub record PartCacheKey : Type 0 where
  pub part_id : Str
  pub feature_order : List Str
  pub feature_hashes : JsMap Str
  pub params_hash : Str
  pub context_hash : Str
  pub overrides_hash : Option Str

abbrev pub unit_text : LengthUnit → Str
unit_text mm = codes "mm"
unit_text cm = codes "cm"
unit_text m = codes "m"
unit_text inch = codes "in"

-- The object that a context is.
unfoldable pub context_value : {N : Type 0} → BuildContext N → Value N
context_value context = obj (
    field (codes "units") (str (unit_text context.units)) (
      field (codes "kernel")
        (obj (
          field (codes "name") (str context.kernel.name)
            (field (codes "version") (str context.kernel.version) end)))
        (field (codes "tolerance")
          (obj (
            field (codes "linear") (num context.tolerance.linear)
              (field (codes "angular") (num context.tolerance.angular) end)))
          end)))

-- No options are passed on, so no feature is refused for its stage; `z` validates as by default.
-- `params_value` and `overrides_value` give the array and the object that the parameters and the
-- overrides are.
module _ {N : Type 0} (number_text : N → Str) (fields_of : IntentFeature N → Fields N)
    (params_value : List (ParamDef N) → Value N) (overrides_value : JsMap (Scalar N) → Value N)
    (z : Normalizer N) where
  abbrev pub overrides_hash_of : Option (JsMap (Scalar N)) → Option Str
  overrides_hash_of none = none
  overrides_hash_of (some overrides) =
      some (text_of (hash_value number_text (overrides_value overrides)))

  unfoldable pub build_part_cache_key :
      IntentPart N → BuildContext N → Option (JsMap (Scalar N)) → Run PartCacheKey
  unfolding prepare_part context_value hash_value
  build_part_cache_key part context overrides =
      prepare_part number_text fields_of (record z { staged_features = none }) part
        (or_else [] overrides) (some context.units)
      >>> λ prepared. done (
          ok (record {
            part_id = prepared.normalized.id;
            feature_order = prepared.feature_order;
            feature_hashes = prepared.feature_hashes;
            params_hash = text_of (hash_value number_text (params_value (or_else [] part.params)));
            context_hash = text_of (hash_value number_text (context_value context));
            overrides_hash = overrides_hash_of overrides;
          }))
