-- ===== src/Select/Scores.antt =====
-- src/selectors.ts: the score of a selection for a stable reference, and the selection that is picked.
use trueform.Base.{
  ℕ, ◌+◌, Bool, true, false, not, ◌&&◌, ◌||◌, Option, none, some, ◌++◌, max, min, ltb,
  if◌then◌else◌,
}
use trueform.Base.Text.{Str, codes, ◌==◌}
use trueform.Base.JsMap.{get}
use trueform.Base.Value.{Value, Values, str, arr, nil, cons}
use trueform.Base.Strings.{trim}
use trueform.Graph.References.{is_empty_text, cut_at, Cut}
use trueform.Select.Context.{Selection}
use trueform.Select.Slots.{
  Relation, bound, ParsedSelectionSlot, boundary, seam, end_point, parse_selection_slot, after_text,
}
use trueform.Select.Names.{StableSelectionRef}
use trueform.Select.Rebind.{meta_string, score_slot_migration, score_lineage_selection_rebind}
use trueform.Select.BooleanEdges.{
  BooleanEdgeRebindMetadata, selection_boolean_edge_rebind_metadata,
  build_boolean_edge_selection_signature,
}

abbrev pub same_relation : Relation → Relation → Bool
same_relation bound bound = true
same_relation Relation.join Relation.join = true
same_relation _ _ = false

abbrev pub positive : ℕ → Bool
positive n = ltb 0 n

abbrev pub both_score : ℕ → ℕ → ℕ → ℕ → ℕ
both_score base root target otherwise =
    if positive root && positive target then base + min root target else otherwise

abbrev pub metadata_score : Str → Relation → Str → BooleanEdgeRebindMetadata → ℕ
metadata_score root relation target m =
    if not (same_relation m.relation relation)
    then 0
    else both_score 86 (score_slot_migration root m.root_slot)
        (score_slot_migration target m.target_slot)
        (both_score 76 (score_slot_migration root m.base_root_slot)
          (score_slot_migration target m.base_target_slot) 0)

-- An empty signature is not the expected one, which starts with its version.
abbrev pub has_signature : {N : Type 0} → Selection N → Str → Bool
has_signature selection expected =
    trim (meta_string (get (codes "selectionSignature") selection.meta)) == expected

abbrev pub boundary_metadata_score :
    {N : Type 0} → Str → Relation → Str → Selection N → Option BooleanEdgeRebindMetadata → ℕ
boundary_metadata_score root relation target selection none = 0
boundary_metadata_score root relation target selection (some m) =
    if has_signature selection (build_boolean_edge_selection_signature root relation target)
    then 96
    else metadata_score root relation target m

unfoldable pub score_boolean_edge_metadata_rebind :
    {N : Type 0} → ParsedSelectionSlot → Selection N → ℕ
unfolding ◌==◌ trim get selection_boolean_edge_rebind_metadata
    build_boolean_edge_selection_signature score_slot_migration
score_boolean_edge_metadata_rebind (boundary root relation target) selection =
    boundary_metadata_score root relation target selection
      (selection_boolean_edge_rebind_metadata selection)
score_boolean_edge_metadata_rebind _ selection = 0

abbrev pub adjacent_entry : {N : Type 0} → Str → Value N → Bool
adjacent_entry target (str s) = positive (score_slot_migration target s)
adjacent_entry target _ = false

unfoldable pub any_adjacent : {N : Type 0} → Str → Values N → Bool
unfolding score_slot_migration
any_adjacent target nil = false
any_adjacent target (cons x xs) = adjacent_entry target x || any_adjacent target xs

abbrev pub adjacent_slots : {N : Type 0} → Str → Option (Value N) → Bool
adjacent_slots target (some (arr xs)) = any_adjacent target xs
adjacent_slots target _ = false

unfoldable pub candidate_has_adjacent_face_slot : {N : Type 0} → Selection N → Str → Bool
unfolding any_adjacent get
candidate_has_adjacent_face_slot selection target =
    adjacent_slots target (get (codes "adjacentFaceSlots") selection.meta)

-- root.split(".")[0]
abbrev pub label_of : Str → Option Cut → Str
label_of root none = root
label_of root (some k) = k.before

abbrev pub starts_with : Str → Str → Bool
starts_with prefix s = elim (after_text prefix s) [ some rest ↦ true | none ↦ false ]

abbrev pub target_looks_derived : Str → Str → Bool
target_looks_derived root target =
    let label = label_of root (cut_at 46 root) in
    not (is_empty_text label) && starts_with (label ++ codes ".") target

-- The relations of the reference and the candidate differ.
abbrev pub crossed_score :
    {N : Type 0} → Str → Relation → Str → Selection N → Relation → Str → ℕ → ℕ → ℕ
crossed_score root bound target selection Relation.join candidate lineage by_metadata =
    if target_looks_derived root target
      && positive (score_slot_migration target candidate)
      && candidate_has_adjacent_face_slot selection target
    then max 90 by_metadata
    else max lineage by_metadata
crossed_score root Relation.join target selection bound candidate lineage by_metadata =
    if positive (score_slot_migration target candidate)
      && candidate_has_adjacent_face_slot selection target
    then max 70 by_metadata
    else max lineage by_metadata
crossed_score root relation target selection _ candidate lineage by_metadata =
    max lineage by_metadata

abbrev pub boundary_score :
    {N : Type 0} → Str → Relation → Str → Selection N → ParsedSelectionSlot → ℕ → ℕ → ℕ
boundary_score root relation target selection (boundary root' relation' target') lineage
      by_metadata =
    if same_relation relation' relation
    then (let by_root = score_slot_migration root root' in
        let by_target = score_slot_migration target target' in
        if not (positive by_root) || not (positive by_target)
        then 0
        else max (88 + min by_root by_target) by_metadata)
    else crossed_score root relation target selection relation' target' lineage by_metadata
boundary_score root relation target selection _ lineage by_metadata = max lineage by_metadata

abbrev pub seam_score : Str → ParsedSelectionSlot → ℕ
seam_score root (seam root') = if positive (score_slot_migration root root') then 85 else 0
seam_score root _ = 0

abbrev pub end_score : Str → Str → ParsedSelectionSlot → ℕ
end_score root index (end_point root' index') =
    if index' == index && positive (score_slot_migration root root') then 85 else 0
end_score root index _ = 0

-- The score where the slots differ.
unfoldable pub score_slot_forms :
    {N : Type 0} → ParsedSelectionSlot → Selection N → ParsedSelectionSlot → (lineage : ℕ) → ℕ
unfolding ◌==◌ score_slot_migration candidate_has_adjacent_face_slot
    score_boolean_edge_metadata_rebind after_text
score_slot_forms (boundary root relation target) selection candidate lineage =
    boundary_score root relation target selection candidate lineage
      (score_boolean_edge_metadata_rebind (boundary root relation target) selection)
score_slot_forms (seam root) selection candidate lineage = seam_score root candidate
score_slot_forms (end_point root index) selection candidate lineage = end_score root index candidate
score_slot_forms _ selection candidate lineage = lineage

unfoldable pub score_stable_selection_rebind :
    {N : Type 0} → StableSelectionRef → ParsedSelectionSlot → Selection N → ℕ
unfolding get ◌==◌ parse_selection_slot score_slot_forms score_lineage_selection_rebind
score_stable_selection_rebind parsed parsed_slot selection =
    let candidate = meta_string (get (codes "selectionSlot") selection.meta) in
    if is_empty_text candidate
    then 0
    else if candidate == parsed.slot
    then 100
    else score_slot_forms parsed_slot selection (parse_selection_slot candidate)
        (score_lineage_selection_rebind parsed.slot selection candidate)
