-- ===== src/Select/BooleanEdges.antt =====
-- src/selectors.ts: what the metadata of an edge of a boolean says of the faces that it lies between.
use trueform.Base.{ℕ, ◌≡◌, refl, Option, none, some, List, [], ◌∷◌, eqb, if◌then◌else◌}
use trueform.Base.Text.{Str, codes, ◌==◌}
use trueform.Base.JsMap.{get}
use trueform.Base.Value.{Value, str, arr, obj, nil, cons}
use trueform.Base.Strings.{trim}
use trueform.Graph.References.{is_empty_text}
use trueform.Hash.{join}
use trueform.Select.Context.{Selection}
use trueform.Select.Slots.{Relation, bound, semantic_base_slot}
use trueform.Select.Semantics.{relation_text}
use trueform.Select.Rebind.{require_non_empty_string, property}

pub record BooleanEdgeRebindMetadata : Type 0 where
  pub relation : Relation
  pub root_slot : Str
  pub target_slot : Str
  pub base_root_slot : Str
  pub base_target_slot : Str

unfoldable pub parse_relation : Str → Option Relation
unfolding ◌==◌
parse_relation s =
    if s == codes "bound"
    then some bound
    else if s == codes "join"
    then some Relation.join
    else none

abbrev relation_of : {N : Type 0} → Option (Value N) → Option Relation
relation_of (some (str s)) = parse_relation s
relation_of _ = none

-- The entries of an array of two.
abbrev two_entries : {N : Type 0} → Option (Value N) → Option (Value N × Value N)
two_entries (some (arr (cons x (cons y nil)))) = some (x, y)
two_entries _ = none

abbrev metadata :
    Option Relation
    → Option Str
    → Option Str
    → Option Str
    → Option Str
    → Option BooleanEdgeRebindMetadata
metadata (some relation) (some root) (some target) (some base_root) (some base_target) =
    some (record {
      relation = relation;
      root_slot = root;
      target_slot = target;
      base_root_slot = base_root;
      base_target_slot = base_target;
    })
metadata _ _ _ _ _ = none

abbrev with_bases :
    {N : Type 0}
    → Option Relation
    → Option Str
    → Option Str
    → Option (Value N × Value N)
    → Option BooleanEdgeRebindMetadata
with_bases relation root target none = none
with_bases relation root target (some (x, y)) =
    metadata relation root target (require_non_empty_string (some x))
      (require_non_empty_string (some y))

-- An array has none of these properties.
unfoldable pub parse_boolean_edge_selection_provenance :
    {N : Type 0} → Option (Value N) → Option BooleanEdgeRebindMetadata
unfolding parse_relation ◌==◌ trim
parse_boolean_edge_selection_provenance (some (obj fs)) =
    with_bases (relation_of (property (codes "relation") fs))
      (require_non_empty_string (property (codes "rootSlot") fs))
      (require_non_empty_string (property (codes "targetSlot") fs))
      (two_entries (property (codes "baseFaceSlots") fs))
parse_boolean_edge_selection_provenance _ = none

abbrev pub cons_unit : ℕ → List Str → List Str
cons_unit c [] = (c ∷ []) ∷ []
cons_unit c (p ∷ ps) = (c ∷ p) ∷ ps

-- s.split("|")
unfoldable pub split_bars : Str → List Str
split_bars [] = [] ∷ []
split_bars (c ∷ s) = let rest = split_bars s in if eqb c 124 then [] ∷ rest else cons_unit c rest

abbrev pub full : Str → Option Str
full s = if is_empty_text s then none else some s

unfoldable pub of_parts : List Str → Option BooleanEdgeRebindMetadata
unfolding parse_relation ◌==◌
of_parts (version ∷ relation ∷ root ∷ target ∷ base_root ∷ base_target ∷ []) =
    if version == codes "boolean.edge.v1"
    then metadata (parse_relation relation) (full root) (full target) (full base_root)
        (full base_target)
    else none
of_parts _ = none

unfoldable pub parse_boolean_edge_selection_signature :
    {N : Type 0} → Option (Value N) → Option BooleanEdgeRebindMetadata
unfolding split_bars of_parts trim
parse_boolean_edge_selection_signature (some (str s)) = of_parts (split_bars (trim s))
parse_boolean_edge_selection_signature _ = none

unfoldable pub build_boolean_edge_selection_signature :
    (root : Str) → Relation → (target : Str) → Str
unfolding join semantic_base_slot
build_boolean_edge_selection_signature root relation target = join (codes "|") (
    codes "boolean.edge.v1"
    ∷ relation_text relation
    ∷ root
    ∷ target
    ∷ semantic_base_slot root
    ∷ semantic_base_slot target
    ∷ [])

abbrev or_else :
    Option BooleanEdgeRebindMetadata
    → Option BooleanEdgeRebindMetadata
    → Option BooleanEdgeRebindMetadata
or_else none o = o
or_else (some m) o = some m

unfoldable pub selection_boolean_edge_rebind_metadata :
    {N : Type 0} → Selection N → Option BooleanEdgeRebindMetadata
unfolding parse_boolean_edge_selection_provenance parse_boolean_edge_selection_signature get
selection_boolean_edge_rebind_metadata selection =
    or_else
      (parse_boolean_edge_selection_provenance (get (codes "selectionProvenance") selection.meta))
      (parse_boolean_edge_selection_signature (get (codes "selectionSignature") selection.meta))

signature_read :
    parse_boolean_edge_selection_signature {N = ℕ}
      (some (str (build_boolean_edge_selection_signature (codes "side.1") bound (codes "top"))))
    ≡ some (record {
      relation = bound;
      root_slot = codes "side.1";
      target_slot = codes "top";
      base_root_slot = codes "side.1";
      base_target_slot = codes "top";
    })
unfolding parse_boolean_edge_selection_signature build_boolean_edge_selection_signature
signature_read = refl
