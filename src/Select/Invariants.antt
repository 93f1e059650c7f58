-- ===== src/Select/Invariants.antt =====
-- src/selection_contract.ts: the selections that no error is found in.
use mathlib.Core.Logic.{◌↔◌}
use trueform.Base.{
  ℕ, ◌≡◌, refl, true, false, not, ◌&&◌, Option, none, some, List, [], ◌∷◌, ◌++◌, keep_if,
  Bool-cases, inl, inr,
}
use trueform.Base.Text.{codes}
use trueform.Base.JsMap.{get}
use trueform.Select.Context.{Selection}
use trueform.Select.Semantics.{
  AdjacentFaceSemanticEdgeDescriptor, describe_semantic_edge_from_adjacent_faces,
}
use trueform.Select.Contract
use trueform.Select.Contract.{
  SelectionContractContext, SelectionContractIssue, is_defined, is_edge, has_semantic_slot,
  is_face_or_edge, is_feature_created_selection, issues_of, duplicate_issues, alias_issues,
  edge_slot_issues, creator_issues, first_index, collect_from, collect_selection_contract_issues,
  is_error, assert_selection_contract_invariants,
}

abbrev pub errors : List SelectionContractIssue → List SelectionContractIssue
errors issues = keep_if is_error issues

pub errors-append :
    (xs ys : List SelectionContractIssue)
    → (errors (xs ++ ys) ≡ []) ↔ ((errors xs ≡ []) × (errors ys ≡ []))
errors-append [] ys = (λ e. (refl, e), λ (a, b). b)
errors-append (x ∷ xs) ys = elim (Bool-cases (is_error x)) [
  | inl error ↦ rw error (λ e. cc, λ (a, b). cc)
  | inr warning ↦ rw warning (errors-append xs ys)
]

module _ {N : Type 0} where
  -- A selection has no aliases, and its edge has a slot or none that can be derived.
  pub record IsClean (s : Selection N) : Type 0 where
    pub no_aliases : is_defined (get (codes "selectionAliases") s.meta) ≡ false
    pub slotted :
        is_edge s.kind ≡ true
        → has_semantic_slot s ≡ false
        → describe_semantic_edge_from_adjacent_faces (get (codes "adjacentFaceSlots") s.meta) ≡ none

  duplicate-none :
      (s : Selection N) (i : ℕ) (o : Option ℕ) → (errors (duplicate_issues s i o) ≡ []) ↔ (o ≡ none)
  duplicate-none s i none = (λ e. refl, λ e. refl)
  duplicate-none s i (some j) = (λ e. cc, λ e. cc)

  alias-none :
      (s : Selection N)
      → (errors (alias_issues s) ≡ [])
        ↔ (is_defined (get (codes "selectionAliases") s.meta) ≡ false)
  alias-none s = elim (Bool-cases (is_defined (get (codes "selectionAliases") s.meta))) [
    | inl there ↦ rw there (λ e. cc, λ e. cc)
    | inr absent ↦ rw absent (λ e. refl, λ e. refl)
  ]

  creator-none :
      (context : SelectionContractContext) (s : Selection N)
      → errors (creator_issues context s) ≡ []
  creator-none context s =
      elim (Bool-cases (
        is_feature_created_selection s context.feature_id
        && is_face_or_edge s.kind
        && not (has_semantic_slot s))) [ inl warned ↦ rw warned refl | inr quiet ↦ rw quiet refl ]

  -- The issues of an edge without a slot, by what describes it.
  abbrev described :
      Selection N → Option AdjacentFaceSemanticEdgeDescriptor → List SelectionContractIssue
  described s o = elim o [
    | none ↦ []
    | some d ↦
        Contract.issue Contract.selection_missing_semantic_edge_slot Contract.error s none
          (some d.slot)
        ∷ []
  ]

  described-none :
      (s : Selection N) (o : Option AdjacentFaceSemanticEdgeDescriptor)
      → (errors (described s o) ≡ []) ↔ (o ≡ none)
  described-none s none = (λ e. refl, λ e. refl)
  described-none s (some d) = (λ e. cc, λ e. cc)

  edge-none :
      (s : Selection N)
      → (errors (edge_slot_issues s) ≡ []) ↔ (
          is_edge s.kind ≡ true
          → has_semantic_slot s ≡ false
          → describe_semantic_edge_from_adjacent_faces (get (codes "adjacentFaceSlots") s.meta)
            ≡ none)
  edge-none s = elim (Bool-cases (is_edge s.kind)) [
    | inl edge ↦ elim (Bool-cases (has_semantic_slot s)) [
      | inl slot ↦ rw (edge, slot) (λ e a b. cc, λ h. refl)
      | inr bare ↦
          let (there, back) =
            described-none s (
              describe_semantic_edge_from_adjacent_faces
                (get (codes "adjacentFaceSlots") s.meta)) in
          rw (edge, bare) (λ e a b. there e, λ h. back (h refl refl))
    ]
    | inr other ↦ rw other (λ e a b. cc, λ h. refl)
  ]

  pub issues-none :
      (context : SelectionContractContext) (s : Selection N) (i : ℕ) (o : Option ℕ)
      → (errors (issues_of context s i o) ≡ []) ↔ ((o ≡ none) × IsClean s)
  unfolding issues_of
  issues-none context s i o =
      let four =
        errors-append (duplicate_issues s i o)
          (alias_issues s ++ (edge_slot_issues s ++ creator_issues context s)) in
      let three = errors-append (alias_issues s) (edge_slot_issues s ++ creator_issues context s) in
      let two = errors-append (edge_slot_issues s) (creator_issues context s) in
      (
        λ e.
            let (a, b) = four.0 e in
            let (c, d) = three.0 b in
            let (f, g) = two.0 d in
            (
              (duplicate-none s i o).0 a,
              record { no_aliases = (alias-none s).0 c; slotted = (edge-none s).0 f },
            ),
        λ (a, clean). four.1 (
          (duplicate-none s i o).1 a,
          three.1 (
            (alias-none s).1 clean.no_aliases,
            two.1 ((edge-none s).1 clean.slotted, creator-none context s),
          ),
        ),
      )
