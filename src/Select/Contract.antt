-- ===== src/Select/Contract.antt =====
-- src/selection_contract.ts: the issues that a list of selections has.
use trueform.Base.{
  ℕ, suc, Bool, true, false, not, ◌&&◌, Option, none, some, List, [], ◌∷◌, ◌++◌, keep_if,
  if◌then◌else◌,
}
use trueform.Base.Text.{Str, codes, ◌==◌}
use trueform.Base.JsMap.{JsMap, get, put}
use trueform.Base.Value.{Value, undefined, str}
use trueform.Base.Strings.{trim}
use trueform.Graph.References.{is_empty_text}
use trueform.Kernel.{SelectionKind, face, edge}
use trueform.Select.Context.{Selection}
use trueform.Select.Semantics.{describe_semantic_edge_from_adjacent_faces}

pub data SelectionContractIssueCode : Type 0 where
  selection_id_duplicate : SelectionContractIssueCode
  selection_alias_metadata_present : SelectionContractIssueCode
  selection_missing_semantic_edge_slot : SelectionContractIssueCode
  selection_hash_only_creator_output : SelectionContractIssueCode

pub data Severity : Type 0 where
  error warn : Severity

pub record SelectionContractContext : Type 0 where
  pub feature_id : Option Str
  pub owner_key : Option Str

-- The details are the indexes of a duplicate and the slot that is suggested for an edge. The message
-- is made of what the issue holds.
pub record SelectionContractIssue : Type 0 where
  pub code : SelectionContractIssueCode
  pub severity : Severity
  pub selection_id : Str
  pub kind : SelectionKind
  pub duplicate : Option (ℕ × ℕ)
  pub suggested_slot : Option Str

abbrev pub is_defined : {N : Type 0} → Option (Value N) → Bool
is_defined none = false
is_defined (some undefined) = false
is_defined (some x) = true

abbrev pub is_full_string : {N : Type 0} → Option (Value N) → Bool
is_full_string (some (str s)) = not (is_empty_text (trim s))
is_full_string _ = false

abbrev pub is_string : {N : Type 0} → Str → Option (Value N) → Bool
is_string s (some (str t)) = t == s
is_string s _ = false

unfoldable pub has_semantic_slot : {N : Type 0} → Selection N → Bool
unfolding get trim
has_semantic_slot selection = is_full_string (get (codes "selectionSlot") selection.meta)

abbrev pub created_by : {N : Type 0} → Option (Value N) → Option Str → Bool
created_by value none = false
created_by value (some id) = not (is_empty_text id) && is_string id value

unfoldable pub is_feature_created_selection : {N : Type 0} → Selection N → Option Str → Bool
unfolding get ◌==◌
is_feature_created_selection selection feature_id =
    created_by (get (codes "createdBy") selection.meta) feature_id

abbrev pub is_edge : SelectionKind → Bool
is_edge edge = true
is_edge _ = false

abbrev pub is_face_or_edge : SelectionKind → Bool
is_face_or_edge face = true
is_face_or_edge edge = true
is_face_or_edge _ = false

abbrev pub issue :
    {N : Type 0}
    → SelectionContractIssueCode
    → Severity
    → Selection N
    → Option (ℕ × ℕ)
    → Option Str
    → SelectionContractIssue
issue code severity selection duplicate suggested = record {
  code = code;
  severity = severity;
  selection_id = selection.id;
  kind = selection.kind;
  duplicate = duplicate;
  suggested_slot = suggested;
}

abbrev pub duplicate_issues :
    {N : Type 0} → Selection N → ℕ → Option ℕ → List SelectionContractIssue
duplicate_issues selection index none = []
duplicate_issues selection index (some previous) =
    issue selection_id_duplicate error selection (some (index, previous)) none ∷ []

abbrev pub alias_issues : {N : Type 0} → Selection N → List SelectionContractIssue
alias_issues selection =
    if is_defined (get (codes "selectionAliases") selection.meta)
    then issue selection_alias_metadata_present error selection none none ∷ []
    else []

abbrev pub edge_slot_issues : {N : Type 0} → Selection N → List SelectionContractIssue
edge_slot_issues selection =
    if is_edge selection.kind && not (has_semantic_slot selection)
    then elim (describe_semantic_edge_from_adjacent_faces
        (get (codes "adjacentFaceSlots") selection.meta)) [
          | none ↦ []
          | some d ↦
              issue selection_missing_semantic_edge_slot error selection none (some d.slot) ∷ []
        ]
    else []

abbrev pub creator_issues :
    {N : Type 0} → SelectionContractContext → Selection N → List SelectionContractIssue
creator_issues context selection =
    if is_feature_created_selection selection context.feature_id
      && is_face_or_edge selection.kind
      && not (has_semantic_slot selection)
    then issue selection_hash_only_creator_output warn selection none none ∷ []
    else []

-- What a round of the loop pushes.
unfoldable pub issues_of :
    {N : Type 0}
    → SelectionContractContext
    → Selection N
    → ℕ
    → Option ℕ
    → List SelectionContractIssue
unfolding has_semantic_slot is_feature_created_selection describe_semantic_edge_from_adjacent_faces
    get
issues_of context selection index previous =
    duplicate_issues selection index previous
    ++ (alias_issues selection ++ (edge_slot_issues selection ++ creator_issues context selection))

abbrev pub first_index : Str → ℕ → Option ℕ → JsMap ℕ → JsMap ℕ
first_index id index none seen = put id index seen
first_index id index (some previous) seen = seen

-- The loop from an index on; `seen` holds the first index of each id.
unfoldable pub collect_from :
    {N : Type 0}
    → SelectionContractContext
    → List (Selection N)
    → ℕ
    → JsMap ℕ
    → List SelectionContractIssue
unfolding issues_of
collect_from context [] index seen = []
collect_from context (s ∷ ss) index seen =
    issues_of context s index (get s.id seen)
    ++ collect_from context ss (suc index) (first_index s.id index (get s.id seen) seen)

unfoldable pub collect_selection_contract_issues :
    {N : Type 0} → List (Selection N) → SelectionContractContext → List SelectionContractIssue
unfolding collect_from
collect_selection_contract_issues selections context = collect_from context selections 0 []

abbrev pub is_error : SelectionContractIssue → Bool
is_error i = elim i.severity [ error ↦ true | warn ↦ false ]

abbrev pub is_hash_only : SelectionContractIssue → Bool
is_hash_only i = elim i.code [ selection_hash_only_creator_output ↦ true | _ ↦ false ]

-- The issues that are thrown; none means that nothing is thrown.
unfoldable pub assert_selection_contract_invariants :
    {N : Type 0} → List (Selection N) → SelectionContractContext → List SelectionContractIssue
unfolding collect_selection_contract_issues
assert_selection_contract_invariants selections context =
    keep_if is_error (collect_selection_contract_issues selections context)

-- The result, and the issues that are written by `warn` where it is called. `enabled` is the option,
-- or what the environment says.
unfoldable pub warn_selection_contract_coverage_gaps :
    {N : Type 0}
    → List (Selection N)
    → SelectionContractContext
    → Bool
    → List SelectionContractIssue × Option (List SelectionContractIssue)
unfolding collect_selection_contract_issues
warn_selection_contract_coverage_gaps selections context enabled =
    let warnings = keep_if is_hash_only (collect_selection_contract_issues selections context) in
    elim warnings [ [] ↦ ([], none) | w ∷ ws ↦ (w ∷ ws, if enabled then some (w ∷ ws) else none) ]
