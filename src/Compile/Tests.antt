-- ===== src/Compile/Tests.antt =====
-- src/compiler.ts: the part of three features, from its source to its order.
use mathlib.Core.List.{Memᴰ}
use trueform.Base.{ℕ, ◌≡◌, refl, true, none, [], ◌∷◌, map}
use trueform.Base.Text.{Str, codes}
use trueform.Base.JsMap.{has}
use trueform.Base.Outcome.{ok}
use trueform.Params.Expressions.{done}
use trueform.Graph.Join.{id_of}
use trueform.Graph.Topo.Counts.{occ}
use trueform.Prepare.{CompileResult, compile_prepared_part}
use trueform.Prepare.Tests.{digits, fields, prepared, part_prepared}
use trueform.Normalize.Tests.{normalizer, source, source_normalized}
use trueform.Compile.{prepare_part, compile_part, compile_part_with_hashes}
use trueform.Ir.Scalars.{mm}
use trueform.Ir.Documents.{IntentDocument}
use trueform.Normalize.Scalars.{each}
use trueform.Normalize.Parts.{normalize_part}
use trueform.Normalize.Corresponding.{Pairs}
use trueform.Compile.Documents.{compile_document, IsResultOf, document_results_follow_parts}
use trueform.Compile.Orders.{compiled_order_is_of_source, compiled_order_respects_edges}

abbrev compiled : CompileResult
compiled = record {
  part_id = codes "p";
  feature_order = prepared.feature_order;
  graph = prepared.graph;
}

source_prepared : prepare_part digits fields normalizer source [] none ≡ done (ok prepared)
unfolding prepare_part
source_prepared = rw (source_normalized, part_prepared) refl

source_compiled : compile_part digits fields normalizer source [] none ≡ done (ok compiled)
unfolding compile_part compile_prepared_part
source_compiled = rw source_prepared refl

hashes_compiled :
    compile_part_with_hashes digits fields normalizer source none
    ≡ done (
        ok (record {
          part_id = codes "p";
          order = prepared.feature_order;
          hashes = prepared.feature_hashes;
        }))
unfolding compile_part_with_hashes
hashes_compiled = rw source_prepared refl

compiled_order_is_of_source_example :
    (codes "p" ≡ codes "p")
    × ((t : Str) → occ t compiled.feature_order ≡ occ t (map id_of source.features))
compiled_order_is_of_source_example =
    compiled_order_is_of_source digits fields normalizer source [] none compiled source_compiled

compiled_order_respects_edges_example : has (codes "s") (codes "s" ∷ []) ≡ true
compiled_order_respects_edges_example =
    compiled_order_respects_edges digits fields normalizer source [] none compiled (codes "s" ∷ [])
      (codes "fil" ∷ []) (codes "ex") (record { from = codes "s"; to = codes "ex" }) source_compiled
      refl (Memᴰ.tail (Memᴰ.head refl)) refl

abbrev document : IntentDocument ℕ
document = record {
  id = codes "d";
  parts = source ∷ [];
  constraints = none;
  assertions = none;
  context = record {
    units = mm;
    kernel = record { name = codes "occt"; version = codes "1" };
    tolerance = record { linear = 1; angular = 1 };
  };
}

document_compiled :
    compile_document digits fields normalizer (λ doc. ok tt) document none
    ≡ done (ok (compiled ∷ []))
unfolding compile_document each normalize_part compile_part prepare_part
document_compiled = rw source_compiled refl

document_results_follow_parts_example : Pairs IsResultOf (source ∷ []) (compiled ∷ [])
document_results_follow_parts_example =
    document_results_follow_parts digits fields normalizer (λ doc. ok tt) document none
      (compiled ∷ []) document_compiled
