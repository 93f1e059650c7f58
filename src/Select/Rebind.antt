-- ===== src/Select/Rebind.antt =====
-- src/selectors.ts: a stable reference whose selection is gone is bound to the selection that scores
-- highest.
use trueform.Base.{ℕ, Bool, ◌&&◌, Option, none, some, [], ◌∷◌, ◌++◌, if◌then◌else◌}
use trueform.Base.Text.{Str, codes, ◌==◌}
use trueform.Base.JsMap.{get}
use trueform.Base.Value.{Value, Fields, str, obj, end, field}
use trueform.Base.Strings.{trim}
use trueform.Graph.References.{is_empty_text}
use trueform.Select.Context.{Selection}
use trueform.Select.Slots.{
  SplitBranchSlot, LegacyDuplicateSlot, parse_split_branch_slot, parse_legacy_duplicate_slot,
}
use trueform.Select.Names.{StableSelectionRef, parse_stable_selection_ref}

-- requireMetaString
abbrev pub meta_string : {N : Type 0} → Option (Value N) → Str
meta_string (some (str s)) = s
meta_string _ = []

-- A trimmed string that is not empty, else `null`.
abbrev pub non_empty : Str → Option Str
non_empty [] = none
non_empty (c ∷ s) = some (c ∷ s)

abbrev pub require_non_empty_string : {N : Type 0} → Option (Value N) → Option Str
require_non_empty_string (some (str s)) = non_empty (trim s)
require_non_empty_string _ = none

abbrev pub same_branch : SplitBranchSlot → SplitBranchSlot → Bool
same_branch a b = a.source_slot == b.source_slot && a.branch == b.branch

-- The scores of the lines about duplicates.
abbrev pub duplicate_score : ℕ → ℕ → Option LegacyDuplicateSlot → Str → ℕ
duplicate_score first second none candidate = 0
duplicate_score first second (some d) candidate =
    if d.index == codes "1" && candidate == d.base_slot
    then first
    else if d.index == codes "2" && candidate == codes "right." ++ d.base_slot
    then second
    else 0

abbrev pub migrate_split : Str → Str → Option SplitBranchSlot → Option SplitBranchSlot → ℕ
migrate_split parsed candidate (some p) (some c) = if same_branch p c then 8 else 0
migrate_split parsed candidate none (some c) =
    if c.source_slot == parsed
    then 6
    else duplicate_score 4 3 (parse_legacy_duplicate_slot parsed) candidate
migrate_split parsed candidate (some p) none =
    if candidate == p.source_slot
    then 5
    else duplicate_score 4 3 (parse_legacy_duplicate_slot parsed) candidate
migrate_split parsed candidate none none =
    duplicate_score 4 3 (parse_legacy_duplicate_slot parsed) candidate

unfoldable pub score_slot_migration : Str → Str → ℕ
unfolding ◌==◌ parse_split_branch_slot parse_legacy_duplicate_slot
score_slot_migration parsed candidate =
    if parsed == candidate
    then 10
    else migrate_split parsed candidate (parse_split_branch_slot parsed)
        (parse_split_branch_slot candidate)

-- `record[key]` of an object.
abbrev pub property : {N : Type 0} → Str → Fields N → Option (Value N)
property k end = none
property k (field j x fs) = let rest = property k fs in if j == k then some x else rest

abbrev pub lineage_from : {N : Type 0} → Option (Value N) → Option Str
lineage_from (some (str from)) = if is_empty_text (trim from) then none else some from
lineage_from _ = none

abbrev pub slot_of_ref : Option StableSelectionRef → Option Str
slot_of_ref none = none
slot_of_ref (some r) = some r.slot

abbrev pub source_of : Option Str → Option Str
source_of none = none
source_of (some from) = slot_of_ref (parse_stable_selection_ref from)

-- The property `from` of an array is not an index of it.
abbrev pub lineage_object : {N : Type 0} → Option (Value N) → Option (Value N)
lineage_object (some (obj fs)) = property (codes "from") fs
lineage_object _ = none

unfoldable pub selection_lineage_source_slot : {N : Type 0} → Selection N → Option Str
unfolding get parse_stable_selection_ref trim ◌==◌
selection_lineage_source_slot selection =
    source_of (lineage_from (lineage_object (get (codes "selectionLineage") selection.meta)))

abbrev pub lineage_duplicate : Str → Str → Option LegacyDuplicateSlot → ℕ
lineage_duplicate source candidate none = 0
lineage_duplicate source candidate (some d) =
    if d.base_slot == source then duplicate_score 70 68 (some d) candidate else 0

abbrev pub lineage_split : Str → Str → Str → Option SplitBranchSlot → Option SplitBranchSlot → ℕ
lineage_split source parsed candidate (some p) (some c) = if same_branch p c then 84 else 0
lineage_split source parsed candidate none (some c) =
    if c.source_slot == parsed && source == parsed
    then 74
    else lineage_duplicate source candidate (parse_legacy_duplicate_slot parsed)
lineage_split source parsed candidate (some p) none =
    if candidate == p.source_slot && source == p.source_slot
    then 72
    else lineage_duplicate source candidate (parse_legacy_duplicate_slot parsed)
lineage_split source parsed candidate none none =
    lineage_duplicate source candidate (parse_legacy_duplicate_slot parsed)

-- A source slot is never empty.
abbrev pub lineage_score : Option Str → Str → Str → ℕ
lineage_score none parsed candidate = 0
lineage_score (some source) parsed candidate =
    lineage_split source parsed candidate (parse_split_branch_slot parsed)
      (parse_split_branch_slot candidate)

unfoldable pub score_lineage_selection_rebind : {N : Type 0} → Str → Selection N → Str → ℕ
unfolding selection_lineage_source_slot parse_split_branch_slot parse_legacy_duplicate_slot
score_lineage_selection_rebind parsed selection candidate =
    lineage_score (selection_lineage_source_slot selection) parsed candidate
