-- ===== src/Select/Semantics.antt =====
-- src/selection_semantics.ts: the slot of an edge, from the slots of the faces beside it.
use trueform.Base.{
  Bool, true, false, not, ◌&&◌, ◌||◌, Option, none, some, List, [], ◌∷◌, ◌++◌, every, if◌then◌else◌,
}
use trueform.Base.Text.{Str, codes, ◌==◌}
use trueform.Base.JsMap.{has}
use trueform.Base.Value.{Value, Values, str, arr, nil, cons}
use trueform.Base.Strings.{trim}
use trueform.Graph.Topo.{sort}
use trueform.Graph.References.{is_empty_text, is_digit}
use trueform.Hash.{join}
use trueform.Select.Slots.{after_text, semantic_base_slot, Relation, bound}

-- The loop over the entries; `seen` and `normalized` hold the same slots.
unfoldable pub collect_slots : {N : Type 0} → Values N → List Str → List Str
collect_slots nil normalized = normalized
collect_slots (cons (str slot) xs) normalized =
    let trimmed = trim slot in
    collect_slots xs (
      if is_empty_text trimmed || has trimmed normalized
      then normalized
      else normalized ++ trimmed ∷ [])
collect_slots (cons x xs) normalized = collect_slots xs normalized

-- The argument is `undefined` where there is none.
unfoldable pub normalize_adjacent_face_slots : {N : Type 0} → Option (Value N) → List Str
unfolding collect_slots
normalize_adjacent_face_slots (some (arr xs)) = collect_slots xs []
normalize_adjacent_face_slots _ = []

abbrev is_some_text : Option Str → Bool
is_some_text none = false
is_some_text (some s) = true

unfoldable pub is_right_semantic_slot : Str → Bool
unfolding semantic_base_slot after_text
is_right_semantic_slot slot = is_some_text (after_text (codes "right.") (semantic_base_slot slot))

unfoldable pub is_cap_semantic_slot : Str → Bool
unfolding semantic_base_slot ◌==◌
is_cap_semantic_slot slot =
    let base = semantic_base_slot slot in
    base == codes "top" || base == codes "bottom" || (base == codes "start" || base == codes "end")

abbrev is_numbered : Option Str → Bool
is_numbered none = false
is_numbered (some s) = not (is_empty_text s) && every is_digit s

unfoldable pub is_side_semantic_slot : Str → Bool
unfolding semantic_base_slot ◌==◌ after_text
is_side_semantic_slot slot =
    let base = semantic_base_slot slot in
    is_numbered (after_text (codes "side.") base)
    || is_numbered (after_text (codes "right.side.") base)
    || (base == codes "outer" || base == codes "inner")

pub data EdgeRelation : Type 0 where
  between : Relation → EdgeRelation
  seam : EdgeRelation

pub record AdjacentFaceSemanticEdgeDescriptor : Type 0 where
  pub slot : Str
  pub relation : EdgeRelation
  pub face_slots : List Str
  pub base_face_slots : List Str
  pub root_slot : Str
  pub target_slot : Option Str

abbrev pub relation_text : Relation → Str
relation_text bound = codes "bound"
relation_text Relation.join = codes "join"

-- `rootSlot`, `relation` and `targetSlot` for two slots in order.
pub record EdgeEnds : Type 0 where
  pub root : Str
  pub relation : Relation
  pub target : Str

unfoldable pub edge_ends : Str → Str → EdgeEnds
unfolding is_right_semantic_slot is_side_semantic_slot is_cap_semantic_slot
edge_ends a b =
    if is_right_semantic_slot a && not (is_right_semantic_slot b)
    then record { root = a; relation = bound; target = b }
    else if is_right_semantic_slot b && not (is_right_semantic_slot a)
    then record { root = b; relation = bound; target = a }
    else if is_side_semantic_slot a && is_cap_semantic_slot b
    then record { root = a; relation = bound; target = b }
    else if is_side_semantic_slot b && is_cap_semantic_slot a
    then record { root = b; relation = bound; target = a }
    else record { root = a; relation = Relation.join; target = b }

unfoldable pub describe_pair : Str → Str → AdjacentFaceSemanticEdgeDescriptor
unfolding edge_ends
describe_pair a b =
    let ends = edge_ends a b in
    record {
      slot = ends.root ++ codes "." ++ relation_text ends.relation ++ codes "." ++ ends.target;
      relation = between ends.relation;
      face_slots = a ∷ b ∷ [];
      base_face_slots = semantic_base_slot ends.root ∷ semantic_base_slot ends.target ∷ [];
      root_slot = ends.root;
      target_slot = some ends.target;
    }

-- One slot, or two in order. A slot that was normalized is not empty.
unfoldable pub describe_sorted : List Str → Option AdjacentFaceSemanticEdgeDescriptor
unfolding describe_pair semantic_base_slot
describe_sorted (root ∷ []) = some (record {
  slot = root ++ codes ".seam";
  relation = seam;
  face_slots = root ∷ [];
  base_face_slots = semantic_base_slot root ∷ [];
  root_slot = root;
  target_slot = none;
})
describe_sorted (a ∷ b ∷ []) = some (describe_pair a b)
describe_sorted _ = none

unfoldable pub describe_semantic_edge_from_adjacent_faces :
    {N : Type 0} → Option (Value N) → Option AdjacentFaceSemanticEdgeDescriptor
unfolding normalize_adjacent_face_slots sort describe_sorted
describe_semantic_edge_from_adjacent_faces adjacent =
    describe_sorted (sort (normalize_adjacent_face_slots adjacent))

pub record BooleanSemanticEdgeDescriptor : Type 0 where
  pub slot : Str
  pub signature : Str
  pub relation : Relation
  pub face_slots : List Str
  pub base_face_slots : List Str
  pub root_slot : Str
  pub target_slot : Str

abbrev boolean_edge :
    AdjacentFaceSemanticEdgeDescriptor
    → EdgeRelation
    → Option Str
    → List Str
    → List Str
    → Option BooleanSemanticEdgeDescriptor
boolean_edge d (between r) (some target) (face_a ∷ face_b ∷ []) (base_root ∷ base_target ∷ []) =
    some (record {
      slot = d.slot;
      signature = join (codes "|") (
          codes "boolean.edge.v1"
          ∷ relation_text r
          ∷ d.root_slot
          ∷ target
          ∷ base_root
          ∷ base_target
          ∷ []);
      relation = r;
      face_slots = face_a ∷ face_b ∷ [];
      base_face_slots = base_root ∷ base_target ∷ [];
      root_slot = d.root_slot;
      target_slot = target;
    })
boolean_edge d _ _ _ _ = none

abbrev boolean_edge_of :
    Option AdjacentFaceSemanticEdgeDescriptor → Option BooleanSemanticEdgeDescriptor
boolean_edge_of none = none
boolean_edge_of (some d) = boolean_edge d d.relation d.target_slot d.face_slots d.base_face_slots

unfoldable pub describe_boolean_semantic_edge :
    {N : Type 0} → Option (Value N) → Option BooleanSemanticEdgeDescriptor
unfolding describe_semantic_edge_from_adjacent_faces join
describe_boolean_semantic_edge adjacent =
    boolean_edge_of (describe_semantic_edge_from_adjacent_faces adjacent)

abbrev slot_of : Option AdjacentFaceSemanticEdgeDescriptor → Option Str
slot_of none = none
slot_of (some d) = some d.slot

unfoldable pub derive_semantic_edge_slot_from_adjacent_faces :
    {N : Type 0} → Option (Value N) → Option Str
unfolding describe_semantic_edge_from_adjacent_faces
derive_semantic_edge_slot_from_adjacent_faces adjacent =
    slot_of (describe_semantic_edge_from_adjacent_faces adjacent)

abbrev boolean_slot_of : Option BooleanSemanticEdgeDescriptor → Option Str
boolean_slot_of none = none
boolean_slot_of (some d) = some d.slot

unfoldable pub derive_boolean_semantic_edge_slot : {N : Type 0} → Option (Value N) → Option Str
unfolding describe_boolean_semantic_edge
derive_boolean_semantic_edge_slot adjacent =
    boolean_slot_of (describe_boolean_semantic_edge adjacent)
