-- ===== src/Select/Bounds.antt =====
-- src/selectors.ts: how high a selection scores.

use trueform.Base.{ℕ, ◌≤◌, ◌≡◌, ◌≢◌, refl, false, Option, none, some, Bool-cases, inl, inr, arith}
use trueform.Base.Text.{Str, codes, ◌==◌, ==_iff, ==-self}
use trueform.Base.JsMap.{get}
use trueform.Graph.References.{is_empty_text}
use trueform.Select.Context.{Selection}
use trueform.Select.Slots.{
  Relation, bound, ParsedSelectionSlot, boundary, seam, end_point, SplitBranchSlot,
  LegacyDuplicateSlot, parse_split_branch_slot, parse_selection_slot, parse_legacy_duplicate_slot,
}
use trueform.Select.Names.{StableSelectionRef}
use trueform.Select.Rebind.{
  meta_string, duplicate_score, migrate_split, score_slot_migration, lineage_duplicate,
  lineage_split, lineage_score, score_lineage_selection_rebind, selection_lineage_source_slot,
}
use trueform.Select.BooleanEdges.{BooleanEdgeRebindMetadata, build_boolean_edge_selection_signature}
use trueform.Select.Scores.{
  metadata_score, has_signature, boundary_metadata_score, score_boolean_edge_metadata_rebind,
  crossed_score, boundary_score, seam_score, end_score, score_slot_forms,
  score_stable_selection_rebind, same_relation,
}

duplicate_score-le :
    (a b : ℕ) (o : Option LegacyDuplicateSlot) (s : Str) → b ≤ a → duplicate_score a b o s ≤ a
duplicate_score-le a b none s h = omega arith
duplicate_score-le a b (some d) s h = ground arith

migrate_split-le : (p c : Str) (a b : Option SplitBranchSlot) → migrate_split p c a b ≤ 10
migrate_split-le p c (some a) (some b) = ground arith
migrate_split-le p c none (some b) =
    ground (arith, duplicate_score-le 4 3 (parse_legacy_duplicate_slot p) c)
migrate_split-le p c (some a) none =
    ground (arith, duplicate_score-le 4 3 (parse_legacy_duplicate_slot p) c)
migrate_split-le p c none none =
    omega (arith, duplicate_score-le 4 3 (parse_legacy_duplicate_slot p) c (omega arith))

migration-le : (p c : Str) → score_slot_migration p c ≤ 10
unfolding score_slot_migration
migration-le p c = elim (Bool-cases (p == c)) [
  | inl same ↦ rw same (omega arith)
  | inr differ ↦
      rw differ (migrate_split-le p c (parse_split_branch_slot p) (parse_split_branch_slot c))
]

lineage_duplicate-le :
    (source c : Str) (o : Option LegacyDuplicateSlot) → lineage_duplicate source c o ≤ 70
lineage_duplicate-le source c none = omega arith
lineage_duplicate-le source c (some d) = ground (arith, duplicate_score-le 70 68 (some d) c)

lineage_split-le :
    (source p c : Str) (a b : Option SplitBranchSlot) → lineage_split source p c a b ≤ 84
lineage_split-le source p c (some a) (some b) = ground arith
lineage_split-le source p c none (some b) =
    ground (arith, lineage_duplicate-le source c (parse_legacy_duplicate_slot p))
lineage_split-le source p c (some a) none =
    ground (arith, lineage_duplicate-le source c (parse_legacy_duplicate_slot p))
lineage_split-le source p c none none =
    omega (arith, lineage_duplicate-le source c (parse_legacy_duplicate_slot p))

lineage_score-le : (o : Option Str) (p c : Str) → lineage_score o p c ≤ 84
lineage_score-le none p c = omega arith
lineage_score-le (some source) p c =
    lineage_split-le source p c (parse_split_branch_slot p) (parse_split_branch_slot c)

metadata_score-le :
    (root : Str) (r : Relation) (target : Str) (m : BooleanEdgeRebindMetadata)
    → metadata_score root r target m ≤ 96
metadata_score-le root r target m = ground (
  arith,
  migration-le root m.root_slot,
  migration-le target m.target_slot,
  migration-le root m.base_root_slot,
  migration-le target m.base_target_slot,
)

seam-le : (root : Str) (c : ParsedSelectionSlot) → seam_score root c ≤ 98
seam-le root (seam root') = ground arith
seam-le root _ = omega arith

end-le : (root index : Str) (c : ParsedSelectionSlot) → end_score root index c ≤ 98
end-le root index (end_point root' index') = ground arith
end-le root index _ = omega arith

module _ {N : Type 0} where
  lineage-le : (p : Str) (s : Selection N) (c : Str) → score_lineage_selection_rebind p s c ≤ 84
  unfolding score_lineage_selection_rebind
  lineage-le p s c = lineage_score-le (selection_lineage_source_slot s) p c

  boundary_metadata-le :
      (root : Str) (r : Relation) (target : Str) (s : Selection N)
      (o : Option BooleanEdgeRebindMetadata)
      → boundary_metadata_score root r target s o ≤ 96
  boundary_metadata-le root r target s none = omega arith
  boundary_metadata-le root r target s (some m) =
      elim (Bool-cases (has_signature s (build_boolean_edge_selection_signature root r target))) [
        | inl same ↦ rw same (omega arith)
        | inr differ ↦ rw differ (metadata_score-le root r target m)
      ]

  metadata-le :
      (slot : ParsedSelectionSlot) (s : Selection N)
      → score_boolean_edge_metadata_rebind slot s ≤ 96
  unfolding score_boolean_edge_metadata_rebind
  metadata-le (boundary root r target) s = boundary_metadata-le root r target s _
  metadata-le _ s = omega arith

  crossed-le :
      (root : Str) (r : Relation) (target : Str) (s : Selection N) (r' : Relation) (c : Str)
      (l m : ℕ)
      → l ≤ 84
      → m ≤ 96
      → crossed_score root r target s r' c l m ≤ 98
  crossed-le root bound target s Relation.join c l m p q = ground arith
  crossed-le root Relation.join target s bound c l m p q = ground arith
  crossed-le root bound target s bound c l m p q = omega arith
  crossed-le root Relation.join target s Relation.join c l m p q = omega arith

  boundary-le :
      (root : Str) (r : Relation) (target : Str) (s : Selection N) (c : ParsedSelectionSlot)
      (l m : ℕ)
      → l ≤ 84
      → m ≤ 96
      → boundary_score root r target s c l m ≤ 98
  boundary-le root r target s (boundary root' r' target') l m p q =
      elim (Bool-cases (same_relation r' r)) [
        | inl same ↦ rw same (ground (arith, migration-le root root', migration-le target target'))
        | inr differ ↦ rw differ (crossed-le root r target s r' target' l m p q)
      ]
  boundary-le root r target s _ l m p q = omega arith

  forms-le :
      (slot : ParsedSelectionSlot) (s : Selection N) (c : ParsedSelectionSlot) (l : ℕ)
      → l ≤ 84
      → score_slot_forms slot s c l ≤ 98
  unfolding score_slot_forms
  forms-le (boundary root r target) s c l h =
      boundary-le root r target s c l _ h (metadata-le (boundary root r target) s)
  forms-le (seam root) s c l h = seam-le root c
  forms-le (end_point root index) s c l h = end-le root index c
  forms-le _ s c l h = omega arith

  -- The slot in a selection's metadata.
  abbrev pub slot_of : Selection N → Str
  slot_of s = meta_string (get (codes "selectionSlot") s.meta)

  -- A selection scores 100 if it has the slot of the reference, and at most 98 if it has another.
  pub score_bounds :
      (r : StableSelectionRef) (slot : ParsedSelectionSlot) (s : Selection N)
      → is_empty_text r.slot ≡ false
      → (slot_of s ≡ r.slot → score_stable_selection_rebind r slot s ≡ 100)
        × (slot_of s ≢ r.slot → score_stable_selection_rebind r slot s ≤ 98)
  unfolding score_stable_selection_rebind
  score_bounds r slot s full =
      let forms =
        forms-le slot s (parse_selection_slot (slot_of s))
          (score_lineage_selection_rebind r.slot s (slot_of s)) (lineage-le r.slot s (slot_of s)) in
      (
        λ same. rw (same, full, ==-self r.slot) refl,
        λ differ. ground (arith, forms, differ, ==_iff (slot_of s) r.slot),
      )
