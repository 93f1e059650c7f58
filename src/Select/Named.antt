-- ===== src/Select/Named.antt =====
-- src/selectors.ts: selectors by name.
use Prim.Native.Nat.{Ordering}
use trueform.Base.{Option, none, some, List, [], ◌∷◌, ◌++◌, if◌then◌else◌}
use trueform.Base.Text.{Str, ◌==◌}
use trueform.Base.JsMap.{get, has}
use trueform.Base.Strings.{trim}
use trueform.Base.Outcome.{Outcome, ok, err, ◌>>=◌, named_output_missing, legacy_numeric_selector}
use trueform.Select.Context.{Selection, ResolutionContext}
use trueform.Select.Names.{parse_named_target_list, is_legacy_numeric_selector}
use trueform.Select.Picking.{resolve_stable_selection_rebind}

-- ctx.selections.find((selection) => selection.id === id)
unfoldable pub find_selection : {N : Type 0} → Str → List (Selection N) → Option (Selection N)
unfolding ◌==◌
find_selection id [] = none
find_selection id (s ∷ ss) = let rest = find_selection id ss in if s.id == id then some s else rest

abbrev pub first_selection :
    {N : Type 0} → Option (Selection N) → Option (Selection N) → Option (Selection N)
first_selection none o = o
first_selection (some s) o = some s

module _ {N : Type 0} (collate : Str → Str → Ordering) (ctx : ResolutionContext N) where
  -- The selection that is found, in the order of the three ways.
  unfoldable pub find_named : Str → Option (Selection N)
  unfolding get find_selection resolve_stable_selection_rebind
  find_named name = first_selection (get name ctx.named) (
      first_selection (find_selection name ctx.selections)
        (resolve_stable_selection_rebind collate name ctx))

  abbrev pub or_legacy : Str → Option (Selection N) → Outcome (Option (Selection N))
  or_legacy name (some s) = ok (some s)
  or_legacy name none =
      if is_legacy_numeric_selector name then err (legacy_numeric_selector name) else ok none

  -- The error of the result is thrown by both callers.
  unfoldable pub resolve_named_single : Str → Outcome (Option (Selection N))
  unfolding find_named is_legacy_numeric_selector trim
  resolve_named_single name = or_legacy (trim name) (find_named (trim name))

  abbrev pub must_find : Str → Option (Selection N) → Outcome (Selection N)
  must_find token none = err (named_output_missing token)
  must_find token (some s) = ok s

  -- The loop over the tokens; `resolved` has the ids of `seen`.
  unfoldable pub resolve_tokens :
      List Str → List Str → List (Selection N) → Outcome (List (Selection N))
  unfolding resolve_named_single has
  resolve_tokens [] seen resolved = ok resolved
  resolve_tokens (token ∷ tokens) seen resolved =
      resolve_named_single token >>= must_find token >>= λ s.
      if has s.id seen
      then resolve_tokens tokens seen resolved
      else resolve_tokens tokens (seen ++ s.id ∷ []) (resolved ++ s ∷ [])

  abbrev pub at_least_one : Str → List (Selection N) → Outcome (List (Selection N))
  at_least_one name [] = err (named_output_missing name)
  at_least_one name (s ∷ ss) = ok (s ∷ ss)

  abbrev pub resolve_token_list : Str → List Str → Outcome (List (Selection N))
  resolve_token_list name (a ∷ b ∷ tokens) =
      resolve_tokens (a ∷ b ∷ tokens) [] [] >>= at_least_one name
  resolve_token_list name _ = err (named_output_missing name)

  abbrev pub or_list : Str → Option (Selection N) → Outcome (List (Selection N))
  or_list name (some s) = ok (s ∷ [])
  or_list name none = resolve_token_list name (parse_named_target_list name)

  unfoldable pub resolve_named_set : Str → Outcome (List (Selection N))
  unfolding resolve_named_single resolve_tokens parse_named_target_list
  resolve_named_set name = resolve_named_single name >>= or_list name
