-- ===== src/Select/Distinct.antt =====
-- src/selection_contract.ts: the selections that pass the contract.
use mathlib.Core.Logic.{◌↔◌}
use trueform.Base.{
  ℕ, suc, ◌≡◌, refl, false, none, List, [], ◌∷◌, Bool-cases, inl, inr, All, All-map, All-map_two,
}
use trueform.Base.Text.{Str, ◌==◌}
use trueform.Base.JsMap.{JsMap, get, put, get-put}
use trueform.Select.Context.{Selection}
use trueform.Select.Contract.{
  SelectionContractContext, issues_of, first_index, collect_from, collect_selection_contract_issues,
  assert_selection_contract_invariants,
}
use trueform.Select.Invariants.{errors, errors-append, IsClean, issues-none}

module _ {N : Type 0} where
  -- No two selections have the same id.
  abbrev pub AreDistinct : List (Selection N) → Type 0
  AreDistinct [] = Unit
  AreDistinct (s ∷ ss) = All (λ t. (s.id == t.id) ≡ false) ss × AreDistinct ss

  -- No id has been seen.
  abbrev AreNew : JsMap ℕ → List (Selection N) → Type 0
  AreNew seen ss = All (λ s. get s.id seen ≡ none) ss

  new_put :
      (id : Str) (i : ℕ) (seen : JsMap ℕ) (t : Selection N)
      → (get t.id (put id i seen) ≡ none) ↔ (((id == t.id) ≡ false) × (get t.id seen ≡ none))
  new_put id i seen t = elim (Bool-cases (id == t.id)) [
    | inl same ↦ rw (get-put id t.id i seen, same) (λ e. cc, λ (a, b). cc)
    | inr differ ↦ rw (get-put id t.id i seen, differ) (λ e. (refl, e), λ (a, b). b)
  ]

  abbrev Passes : JsMap ℕ → List (Selection N) → Type 0
  Passes seen ss = AreNew seen ss × AreDistinct ss × All IsClean ss

  Passes-step :
      (s : Selection N) (i : ℕ) (seen : JsMap ℕ) (ss : List (Selection N))
      → Passes (put s.id i seen) ss ↔ (All (λ t. (s.id == t.id) ≡ false) ss × Passes seen ss)
  Passes-step s i seen ss = (
    λ (new, distinct, clean). (
      All-map ss (λ t e. ((new_put s.id i seen t).0 e).0) new,
      (All-map ss (λ t e. ((new_put s.id i seen t).0 e).1) new, distinct, clean),
    ),
    λ (other, (new, distinct, clean)).
        (All-map_two ss (λ t a b. (new_put s.id i seen t).1 (a, b)) other new, distinct, clean),
  )

  collect-none :
      (context : SelectionContractContext) (ss : List (Selection N)) (i : ℕ) (seen : JsMap ℕ)
      → (errors (collect_from context ss i seen) ≡ []) ↔ Passes seen ss
  unfolding collect_from
  collect-none context [] i seen = (λ e. (tt, tt, tt), λ h. refl)
  collect-none context (s ∷ ss) i seen =
      let both =
        errors-append (issues_of context s i (get s.id seen))
          (collect_from context ss (suc i) (first_index s.id i (get s.id seen) seen)) in
      let here = issues-none context s i (get s.id seen) in
      let rest = collect-none context ss (suc i) (put s.id i seen) in
      let step = Passes-step s i seen ss in
      (
        λ e.
            let (a, b) = both.0 e in
            let (new, clean) = here.0 a in
            let (other, (n, d, c)) = step.0 (rest.0 (rw new at b)) in
            ((new, n), (other, d), (clean, c)),
        λ ((new, n), (other, d), (clean, c)).
            both.1 (here.1 (new, clean), rw new (rest.1 (step.1 (other, (n, d, c))))),
      )

  -- The contract finds no error in a list of selections exactly when their ids are pairwise distinct,
  -- none has alias metadata, and no edge lacks a slot that its adjacent faces determine.
  pub contract_holds_iff :
      (context : SelectionContractContext) (ss : List (Selection N))
      → (assert_selection_contract_invariants ss context ≡ []) ↔ (AreDistinct ss × All IsClean ss)
  unfolding assert_selection_contract_invariants collect_selection_contract_issues get
  contract_holds_iff context ss =
      let all = collect-none context ss 0 [] in
      (λ e. let (n, d, c) = all.0 e in (d, c), λ (d, c). all.1 (All-Any ss, d, c))
    where
      All-Any : (ts : List (Selection N)) → AreNew [] ts
      All-Any [] = tt
      All-Any (t ∷ ts) = (refl, All-Any ts)
