-- ===== src/Select/Picking.antt =====
-- src/selectors.ts: the selections that a stable reference may be bound to again, and the one that is
-- picked.
use Prim.Native.Nat.{Ordering}
use trueform.Base.{
  ℕ, Bool, true, false, not, ◌&&◌, ◌||◌, Option, none, some, List, [], ◌∷◌, ltb, eqb, keep_if, map,
  if◌then◌else◌,
}
use trueform.Base.Text.{Str, codes, ◌==◌}
use trueform.Base.JsMap.{get}
use trueform.Kernel.{SelectionKind, face, edge, solid, surface}
use trueform.Select.Context.{Selection, ResolutionContext}
use trueform.Select.Slots.{
  Relation, bound, ParsedSelectionSlot, boundary, seam, end_point, other, parse_selection_slot,
  after_text,
}
use trueform.Select.Slots
use trueform.Select.Names.{
  StableSelectionRef, normalize_selection_token, parse_stable_selection_ref,
}
use trueform.Select.Rebind.{meta_string}
use trueform.Select.Scores.{score_stable_selection_rebind, positive}

abbrev pub same_kind : SelectionKind → SelectionKind → Bool
same_kind face face = true
same_kind edge edge = true
same_kind solid solid = true
same_kind surface surface = true
same_kind _ _ = false

unfoldable pub is_rebind_candidate : {N : Type 0} → StableSelectionRef → Bool → Selection N → Bool
unfolding get ◌==◌ normalize_selection_token
is_rebind_candidate parsed match_owner selection =
    same_kind selection.kind parsed.kind
    && normalize_selection_token (meta_string (get (codes "createdBy") selection.meta))
      == parsed.created_by_token
    && (not match_owner
        || normalize_selection_token (meta_string (get (codes "ownerKey") selection.meta))
          == parsed.owner_token)

unfoldable pub stable_selection_rebind_candidates :
    {N : Type 0}
    → StableSelectionRef
    → ResolutionContext N
    → (match_owner : Bool) → List (Selection N)
unfolding is_rebind_candidate
stable_selection_rebind_candidates parsed ctx match_owner =
    keep_if (is_rebind_candidate parsed match_owner) ctx.selections

pub record Scored (N : Type 0) : Type 0 where
  pub selection : Selection N
  pub score : ℕ

abbrev is_after : Ordering → Bool
is_after o = elim o [ Ordering.gt ↦ true | _ ↦ false ]

-- `collate a b` is the order of `a.localeCompare(b)`.
module _ {N : Type 0} (collate : Str → Str → Ordering) where
  -- The comparison of the sort is positive: `a` belongs after `b`.
  abbrev pub belongs_after : Scored N → Scored N → Bool
  belongs_after a b =
      ltb a.score b.score
      || (eqb a.score b.score && is_after (collate a.selection.id b.selection.id))

  unfoldable pub insert_scored : Scored N → List (Scored N) → List (Scored N)
  insert_scored e [] = e ∷ []
  insert_scored e (x ∷ xs) =
      let rest = insert_scored e xs in if belongs_after e x then x ∷ rest else e ∷ x ∷ xs

  unfoldable pub sort_scored : List (Scored N) → List (Scored N)
  unfolding insert_scored
  sort_scored [] = []
  sort_scored (e ∷ es) = insert_scored e (sort_scored es)

  abbrev pub unrivalled : List (Scored N) → Option (Selection N)
  unrivalled [] = none
  unrivalled (best ∷ []) = some best.selection
  unrivalled (best ∷ second ∷ rest) =
      if eqb second.score best.score then none else some best.selection

  unfoldable pub pick_by_score : List (Scored N) → Option (Selection N)
  unfolding sort_scored
  pick_by_score scored = unrivalled (sort_scored (keep_if (λ e. positive e.score) scored))

  unfoldable pub pick_stable_selection_rebind_candidate :
      StableSelectionRef → ParsedSelectionSlot → List (Selection N) → Option (Selection N)
  unfolding pick_by_score score_stable_selection_rebind
  pick_stable_selection_rebind_candidate parsed parsed_slot candidates = pick_by_score (
      map
        (λ s. record { selection = s; score = score_stable_selection_rebind parsed parsed_slot s })
        candidates)

  abbrev pub rebind_in :
      StableSelectionRef
      → ParsedSelectionSlot
      → ResolutionContext N
      → List (Selection N)
      → Option (Selection N)
  rebind_in parsed parsed_slot ctx [] =
      pick_stable_selection_rebind_candidate parsed parsed_slot
        (stable_selection_rebind_candidates parsed ctx false)
  rebind_in parsed parsed_slot ctx (s ∷ ss) =
      pick_stable_selection_rebind_candidate parsed parsed_slot (s ∷ ss)

  abbrev pub rebind_slot :
      StableSelectionRef → ResolutionContext N → ParsedSelectionSlot → Option (Selection N)
  rebind_slot parsed ctx (Slots.edge root index) = none
  rebind_slot parsed ctx parsed_slot =
      rebind_in parsed parsed_slot ctx (stable_selection_rebind_candidates parsed ctx true)

  abbrev pub rebind_ref : ResolutionContext N → Option StableSelectionRef → Option (Selection N)
  rebind_ref ctx none = none
  rebind_ref ctx (some parsed) = rebind_slot parsed ctx (parse_selection_slot parsed.slot)

  -- With no candidate left, `pick_by_score` finds none.
  unfoldable pub resolve_stable_selection_rebind : Str → ResolutionContext N → Option (Selection N)
  unfolding parse_stable_selection_ref parse_selection_slot stable_selection_rebind_candidates
      pick_stable_selection_rebind_candidate
  resolve_stable_selection_rebind target ctx = rebind_ref ctx (parse_stable_selection_ref target)
