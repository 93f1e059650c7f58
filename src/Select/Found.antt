-- ===== src/Select/Found.antt =====
-- src/selectors.ts: where the selections of a name come from.
use Prim.Native.Nat.{Ordering}
use mathlib.Core.List.{Memᴰ}
use trueform.Base.{
  ◌≡◌, ◌⊎◌, inl, inr, refl, Bool, true, false, Option, none, some, List, [], ◌∷◌, ◌++◌, map, All,
  All-map, Bool-cases, eqb,
}
use trueform.Base.Text.{Str, ◌==◌}
use trueform.Base.JsMap.{get, has}
use trueform.Base.Strings.{trim}
use trueform.Base.Outcome.{◌>>=◌}
use trueform.Select.Context.{Selection, ResolutionContext}
use trueform.Select.Names.{
  StableSelectionRef, parse_stable_selection_ref, parse_named_target_list,
  is_legacy_numeric_selector,
}
use trueform.Select.Slots.{ParsedSelectionSlot, parse_selection_slot}
use trueform.Select.Slots
use trueform.Select.Picking.{
  rebind_in, rebind_slot, Scored, stable_selection_rebind_candidates, insert_scored, sort_scored,
  unrivalled, pick_stable_selection_rebind_candidate, resolve_stable_selection_rebind, rebind_ref,
  belongs_after,
}
use trueform.Select.Named.{
  first_selection, or_legacy, must_find, at_least_one, resolve_token_list, or_list, find_selection,
  find_named, resolve_named_single, resolve_tokens, resolve_named_set,
}
use trueform.Select.Surely.{Surely, Surely->>=, All-keep_if}

pub All-self {ℓ} : {A : Type ℓ} (xs : List A) → All (λ x. Memᴰ x xs) xs
All-self [] = tt
All-self (x ∷ xs) = (Memᴰ.head refl, All-map xs (λ y m. Memᴰ.tail m) (All-self xs))

-- What a value, if there is one, has.
abbrev pub Each {ℓ κ} : {A : Type ℓ} → (A → Type κ) → Option A → Type κ
Each P none = Unit
Each P (some a) = P a

pub Each-map {ℓ κ μ} :
    {A : Type ℓ} (P : A → Type κ) (Q : A → Type μ) (o : Option A)
    → ((a : A) → P a → Q a)
    → Each P o
    → Each Q o
Each-map P Q none f h = tt
Each-map P Q (some a) f h = f a h

abbrev pub NonEmpty {ℓ} : {A : Type ℓ} → List A → Type 0
NonEmpty [] = ⊥
NonEmpty (x ∷ xs) = Unit

module _ {N : Type 0} (collate : Str → Str → Ordering) (P : Selection N → Type 0) where
  abbrev Scores : List (Scored N) → Type 0
  Scores es = All (λ e. P e.selection) es

  insert_scored-All :
      (e : Scored N) (es : List (Scored N))
      → P e.selection
      → Scores es
      → Scores (insert_scored collate e es)
  unfolding insert_scored
  insert_scored-All e [] p h = (p, tt)
  insert_scored-All e (x ∷ es) p h = elim (Bool-cases (belongs_after collate e x)) [
    | inl later ↦ rw later (h.0, insert_scored-All e es p h.1)
    | inr here ↦ rw here (p, h)
  ]

  sort_scored-All : (es : List (Scored N)) → Scores es → Scores (sort_scored collate es)
  unfolding sort_scored
  sort_scored-All [] h = tt
  sort_scored-All (e ∷ es) h =
      insert_scored-All e (sort_scored collate es) h.0 (sort_scored-All es h.1)

  unrivalled-Each : (es : List (Scored N)) → Scores es → Each P (unrivalled collate es)
  unrivalled-Each [] h = tt
  unrivalled-Each (best ∷ []) h = h.0
  unrivalled-Each (best ∷ second ∷ rest) h = elim (Bool-cases (eqb second.score best.score)) [
    | inl tie ↦ rw tie tt
    | inr clear ↦ rw clear h.0
  ]

  scored-All :
      (f : Selection N → Scored N) (ss : List (Selection N))
      → ((s : Selection N) → (f s).selection ≡ s)
      → All P ss
      → Scores (map f ss)
  scored-All f [] own h = tt
  scored-All f (s ∷ ss) own h = (rw (own s) h.0, scored-All f ss own h.1)

  pick-Each :
      (r : StableSelectionRef) (slot : ParsedSelectionSlot) (ss : List (Selection N))
      → All P ss
      → Each P (pick_stable_selection_rebind_candidate collate r slot ss)
  unfolding pick_stable_selection_rebind_candidate
  pick-Each r slot ss h =
      unrivalled-Each _ (sort_scored-All _ (All-keep_if _ _ _ (scored-All _ ss (λ s. refl) h)))

-- A selection of the context: one of its list, or the value of a name.
abbrev pub IsOf : {N : Type 0} → ResolutionContext N → Selection N → Type 0
IsOf ctx s = Memᴰ s ctx.selections ⊎ ((name : Str) × (get name ctx.named ≡ some s))

abbrev pub Found : {N : Type 0} → ResolutionContext N → List (Selection N) → Type 0
Found ctx ss = NonEmpty ss × All (IsOf ctx) ss

module _ {N : Type 0} (collate : Str → Str → Ordering) (ctx : ResolutionContext N) where
  listed-IsOf : (ss : List (Selection N)) → All (λ s. Memᴰ s ctx.selections) ss → All (IsOf ctx) ss
  listed-IsOf ss h = All-map ss (λ s m. inl m) h

  candidates-IsOf :
      (r : StableSelectionRef) (owner : Bool)
      → All (IsOf ctx) (stable_selection_rebind_candidates r ctx owner)
  unfolding stable_selection_rebind_candidates
  candidates-IsOf r owner =
      All-keep_if (IsOf ctx) _ ctx.selections (listed-IsOf ctx.selections (All-self ctx.selections))

  rebind_in-Each :
      (r : StableSelectionRef) (slot : ParsedSelectionSlot) (ss : List (Selection N))
      → All (IsOf ctx) ss
      → Each (IsOf ctx) (rebind_in collate r slot ctx ss)
  rebind_in-Each r slot [] h =
      pick-Each collate (IsOf ctx) r slot (stable_selection_rebind_candidates r ctx false)
        (candidates-IsOf r false)
  rebind_in-Each r slot (s ∷ ss) h = pick-Each collate (IsOf ctx) r slot (s ∷ ss) h

  rebind_slot-Each :
      (r : StableSelectionRef) (slot : ParsedSelectionSlot)
      → Each (IsOf ctx) (rebind_slot collate r ctx slot)
  rebind_slot-Each r (Slots.edge root index) = tt
  rebind_slot-Each r slot = rebind_in-Each r slot _ (candidates-IsOf r true)

  rebind_ref-Each : (r : Option StableSelectionRef) → Each (IsOf ctx) (rebind_ref collate ctx r)
  rebind_ref-Each none = tt
  rebind_ref-Each (some r) = rebind_slot-Each r (parse_selection_slot r.slot)

  find_selection-Each :
      (id : Str) (ss : List (Selection N)) → Each (λ s. Memᴰ s ss) (find_selection id ss)
  unfolding find_selection
  find_selection-Each id [] = tt
  find_selection-Each id (s ∷ ss) = elim (Bool-cases (s.id == id)) [
    | inl same ↦ rw same (Memᴰ.head refl)
    | inr other_id ↦ rw other_id (
        Each-map (λ x. Memᴰ x ss) (λ x. Memᴰ x (s ∷ ss)) (find_selection id ss) (λ x m. Memᴰ.tail m)
          (find_selection-Each id ss))
  ]

  first-Each :
      (a b : Option (Selection N))
      → Each (IsOf ctx) a
      → Each (IsOf ctx) b
      → Each (IsOf ctx) (first_selection a b)
  first-Each none b h k = k
  first-Each (some s) b h k = h

  got-Each : (name : Str) (o : Option (Selection N)) → get name ctx.named ≡ o → Each (IsOf ctx) o
  got-Each name none e = tt
  got-Each name (some s) e = inr (name, e)

  find_named-Each : (name : Str) → Each (IsOf ctx) (find_named collate ctx name)
  unfolding find_named resolve_stable_selection_rebind
  find_named-Each name = first-Each _ _ (got-Each name (get name ctx.named) refl) (
      first-Each _ _
        (Each-map (λ x. Memᴰ x ctx.selections) (IsOf ctx) (find_selection name ctx.selections)
          (λ x m. inl m) (find_selection-Each name ctx.selections))
        (rebind_ref-Each (parse_stable_selection_ref name)))

  or_legacy-Surely :
      (name : Str) (o : Option (Selection N))
      → Each (IsOf ctx) o
      → Surely (Each (IsOf ctx)) (or_legacy collate ctx name o)
  or_legacy-Surely name (some s) h = h
  or_legacy-Surely name none h = elim (Bool-cases (is_legacy_numeric_selector name)) [
    | inl legacy ↦ rw legacy tt
    | inr unknown ↦ rw unknown tt
  ]

  single-Surely : (name : Str) → Surely (Each (IsOf ctx)) (resolve_named_single collate ctx name)
  unfolding resolve_named_single
  single-Surely name = or_legacy-Surely (trim name) _ (find_named-Each (trim name))

  must_find-Surely :
      (token : Str) (o : Option (Selection N))
      → Each (IsOf ctx) o
      → Surely (IsOf ctx) (must_find collate ctx token o)
  must_find-Surely token none h = tt
  must_find-Surely token (some s) h = h

  All-snoc :
      (ss : List (Selection N)) (s : Selection N)
      → All (IsOf ctx) ss
      → IsOf ctx s
      → All (IsOf ctx) (ss ++ s ∷ [])
  All-snoc [] s h k = (k, tt)
  All-snoc (x ∷ ss) s h k = (h.0, All-snoc ss s h.1 k)

  tokens-Surely :
      (tokens seen : List Str) (ss : List (Selection N))
      → All (IsOf ctx) ss
      → Surely (All (IsOf ctx)) (resolve_tokens collate ctx tokens seen ss)
  unfolding resolve_tokens
  tokens-Surely [] seen ss h = h
  tokens-Surely (token ∷ tokens) seen ss h =
      Surely->>= (IsOf ctx) (All (IsOf ctx))
        (resolve_named_single collate ctx token >>= must_find collate ctx token) _
        (Surely->>= (Each (IsOf ctx)) (IsOf ctx) (resolve_named_single collate ctx token) _
          (single-Surely token) (λ o k. must_find-Surely token o k))
        (λ s k. elim (Bool-cases (has s.id seen)) [
          | inl old ↦ rw old (tokens-Surely tokens seen ss h)
          | inr new ↦
              rw new (tokens-Surely tokens (seen ++ s.id ∷ []) (ss ++ s ∷ []) (All-snoc ss s h k))
        ])

  at_least_one-Surely :
      (name : Str) (ss : List (Selection N))
      → All (IsOf ctx) ss
      → Surely (Found ctx) (at_least_one collate ctx name ss)
  at_least_one-Surely name [] h = tt
  at_least_one-Surely name (s ∷ ss) h = (tt, h)

  token_list-Surely :
      (name : Str) (tokens : List Str)
      → Surely (Found ctx) (resolve_token_list collate ctx name tokens)
  token_list-Surely name (a ∷ b ∷ tokens) =
      Surely->>= (All (IsOf ctx)) (Found ctx) (resolve_tokens collate ctx (a ∷ b ∷ tokens) [] []) _
        (tokens-Surely (a ∷ b ∷ tokens) [] [] tt) (λ ss h. at_least_one-Surely name ss h)
  token_list-Surely name [] = tt
  token_list-Surely name (a ∷ []) = tt

  or_list-Surely :
      (name : Str) (o : Option (Selection N))
      → Each (IsOf ctx) o
      → Surely (Found ctx) (or_list collate ctx name o)
  or_list-Surely name (some s) h = (tt, (h, tt))
  or_list-Surely name none h = token_list-Surely name (parse_named_target_list name)

  pub named_set-Surely : (name : Str) → Surely (Found ctx) (resolve_named_set collate ctx name)
  unfolding resolve_named_set
  named_set-Surely name =
      Surely->>= (Each (IsOf ctx)) (Found ctx) (resolve_named_single collate ctx name) _
        (single-Surely name) (λ o h. or_list-Surely name o h)
