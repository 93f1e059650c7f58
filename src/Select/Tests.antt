-- ===== src/Select/Tests.antt =====
-- src/selectors.ts and its helpers: two faces and an edge.
use Prim.Native.Nat.{Ordering, compare}
use mathlib.Core.List.{Memᴰ}
use mathlib.Core.Logic.{◌↔◌}
use trueform.Base.{ℕ, ◌≤◌, ◌<◌, ◌≡◌, ◌≢◌, refl, true, none, some, List, [], ◌∷◌, length, All}
use trueform.Base.Text.{Str, codes, ◌==◌, str_lt}
use trueform.Base.JsMap.{get, has}
use trueform.Base.Strings.{trim}
use trueform.Base.Value.{Value, bool, num, str, arr, nil, cons}
use trueform.Base.Outcome.{ok, err, selector_ambiguous}
use trueform.Kernel.{face}
use trueform.Ir.Selectors.{Selector, selector_face, pred_planar, max_area, no_rules, rule}
use trueform.Params.Tests.{naturals}
use trueform.Select.Context.{Selection, ResolutionContext}
use trueform.Select.Slots.{bound, other, semantic_base_slot}
use trueform.Select.Names.{StableSelectionRef}
use trueform.Select.Scores.{score_stable_selection_rebind}
use trueform.Select.Picking.{Scored, pick_by_score, pick_stable_selection_rebind_candidate}
use trueform.Select.Unique.{rivals}
use trueform.Select.Pick.{picks_the_unrivalled}
use trueform.Select.Bounds.{slot_of, score_bounds}
use trueform.Select.Exact.{exact_count, exact_slot_is_picked}
use trueform.Select.Resolve.{resolve_selector}
use trueform.Select.Sound.{Resolves, resolved_selection_matches, selector_never_ambiguous}
use trueform.Select.Semantics.{
  derive_semantic_edge_slot_from_adjacent_faces, describe_semantic_edge_from_adjacent_faces,
}
use trueform.Select.Symmetric.{edge_of_faces_symmetric}
use trueform.Select.BooleanEdges.{
  parse_boolean_edge_selection_signature, build_boolean_edge_selection_signature,
}
use trueform.Select.Signature.{is_plain, IsPlainSlot, signature_round_trip}
use trueform.Select.Contract.{SelectionContractContext, assert_selection_contract_invariants}
use trueform.Select.Invariants.{IsClean}
use trueform.Select.Distinct.{AreDistinct, contract_holds_iff}

-- An order of ids for these tests.
abbrev collate : Str → Str → Ordering
collate a b = compare (length a) (length b)

abbrev face_of : Str → Str → ℕ → Selection ℕ
face_of id slot area = record {
  id = id;
  kind = face;
  meta =
      (codes "planar", bool true)
      ∷ (codes "area", num area)
      ∷ (codes "createdBy", str (codes "base"))
      ∷ (codes "ownerKey", str (codes "body"))
      ∷ (codes "selectionSlot", str slot)
      ∷ [];
}

abbrev small : Selection ℕ
small = face_of (codes "f1") (codes "side.1") 4

abbrev large : Selection ℕ
large = face_of (codes "f2") (codes "top") 9

abbrev ctx : ResolutionContext ℕ
ctx = record { selections = small ∷ large ∷ []; named = [] }

abbrev largest : Selector
largest = selector_face (pred_planar ∷ []) (rule max_area no_rules)

largest_resolved : resolve_selector naturals collate ctx largest ≡ ok large
unfolding resolve_selector
largest_resolved = refl

resolved_selection_matches_example : Resolves ctx largest large
resolved_selection_matches_example =
    resolved_selection_matches naturals collate ctx largest large largest_resolved

selector_never_ambiguous_example :
    resolve_selector naturals collate ctx largest ≢ err selector_ambiguous
selector_never_ambiguous_example = selector_never_ambiguous naturals collate ctx largest

abbrev entries : List (Scored ℕ)
entries = record { selection = small; score = 74 } ∷ record { selection = large; score = 96 } ∷ []

picks_the_unrivalled_example : (pick_by_score collate entries ≡ some large) ↔ (
    (e : Scored ℕ) × Memᴰ e entries
    × (e.selection ≡ large)
    × (0 < e.score)
    × (rivals e.score entries ≡ 1))
picks_the_unrivalled_example = picks_the_unrivalled collate entries large

abbrev reference : StableSelectionRef
reference = record {
  kind = face;
  owner_token = codes "body";
  created_by_token = codes "base";
  slot = codes "top";
}

large_slot : slot_of large ≡ codes "top"
unfolding get ◌==◌
large_slot = refl

one_exact : exact_count reference (other (codes "top")) (small ∷ large ∷ []) ≡ 1
unfolding get ◌==◌
one_exact = refl

exact_slot_is_picked_example :
    pick_stable_selection_rebind_candidate collate reference
      (other (codes "top"))
      (small ∷ large ∷ [])
    ≡ some large
exact_slot_is_picked_example =
    exact_slot_is_picked reference (other (codes "top")) collate large (small ∷ large ∷ []) refl
      (Memᴰ.tail (Memᴰ.head refl)) large_slot one_exact

score_bounds_example :
    (slot_of large ≡ codes "top"
      → score_stable_selection_rebind reference (other (codes "top")) large ≡ 100)
    × (slot_of large ≢ codes "top"
        → score_stable_selection_rebind reference (other (codes "top")) large ≤ 98)
score_bounds_example = score_bounds reference (other (codes "top")) large refl

side-IsPlainSlot : IsPlainSlot (codes "side.1")
unfolding is_plain
side-IsPlainSlot = record { plain = refl; filled = refl }

top-IsPlainSlot : IsPlainSlot (codes "top")
unfolding is_plain
top-IsPlainSlot = record { plain = refl; filled = refl }

signature_round_trip_example :
    parse_boolean_edge_selection_signature {N = ℕ}
      (some (str (build_boolean_edge_selection_signature (codes "side.1") bound (codes "top"))))
    ≡ some (record {
      relation = bound;
      root_slot = codes "side.1";
      target_slot = codes "top";
      base_root_slot = semantic_base_slot (codes "side.1");
      base_target_slot = semantic_base_slot (codes "top");
    })
signature_round_trip_example =
    signature_round_trip ℕ (codes "side.1") bound (codes "top") side-IsPlainSlot top-IsPlainSlot

abbrev slot_value : Str → Value ℕ
slot_value s = str s

edge_of_faces_symmetric_example :
    describe_semantic_edge_from_adjacent_faces
      (some (arr (cons (slot_value (codes "top")) (cons (slot_value (codes "side.1")) nil))))
    ≡ describe_semantic_edge_from_adjacent_faces
        (some (arr (cons (slot_value (codes "side.1")) (cons (slot_value (codes "top")) nil))))
edge_of_faces_symmetric_example =
    edge_of_faces_symmetric (slot_value (codes "top")) (slot_value (codes "side.1"))

-- An edge of two faces, and the slot that it has from them.
side_edge :
    derive_semantic_edge_slot_from_adjacent_faces
      (some (arr (cons (slot_value (codes "top")) (cons (slot_value (codes "side.1")) nil))))
    ≡ some (codes "side.1.bound.top")
unfolding derive_semantic_edge_slot_from_adjacent_faces has ◌==◌ str_lt trim
side_edge = refl

abbrev context : SelectionContractContext
context = record { feature_id = some (codes "base"); owner_key = none }

contract_holds_iff_example :
    (assert_selection_contract_invariants ctx.selections context ≡ [])
    ↔ (AreDistinct ctx.selections × All IsClean ctx.selections)
contract_holds_iff_example = contract_holds_iff context ctx.selections
