-- ===== src/Normalize/Repeats.antt =====
-- src/selectors.ts: `normalizeSelector` removes what is repeated, and nothing else.
use trueform.Base.{
  ◌≡◌, ◌≢◌, refl, sym, ap, Bool, true, false, List, [], ◌∷◌, ◌++◌, Bool-cases, inl, inr,
  if◌then◌else◌, subst,
}
use trueform.Base.Text.{Str, ◌==◌, ==_iff}
use trueform.Base.JsMap.{has, has-snoc}
use trueform.Base.Outcome.{Outcome, ok, err, ◌>>=◌}
use trueform.Ir.Selectors.{
  Predicate, Selector, selector_face, selector_edge, selector_solid, selector_named, Rules,
  no_rules, rule,
}
use trueform.Select.Context.{Selection}
use trueform.Select.Matching.{predicate_matches, matches_every, matching}
use trueform.Normalize.Selectors.{
  Normalizing, normalize_predicates, normalize_rank, normalize_selector,
}

true_not_false : true ≢ false
true_not_false e = cc

only_when_true :
    (m a b : Outcome Bool)
    → (m ≡ ok true → a ≡ b)
    → (m >>= λ t. if t then a else ok false) ≡ (m >>= λ t. if t then b else ok false)
only_when_true (ok true) a b h = h refl
only_when_true (ok false) a b h = refl
only_when_true (err e) a b h = refl

module _ {N : Type 0} (c : Normalizing N) where
  predicates_again :
      (seen : List Str) (ps : List Predicate)
      → normalize_predicates c seen (normalize_predicates c seen ps)
        ≡ normalize_predicates c seen ps
  unfolding normalize_predicates
  predicates_again seen [] = refl
  predicates_again seen (p ∷ ps) = elim (Bool-cases (has (c.predicate_text p) seen)) [
    | inl skip ↦ rw skip (predicates_again seen ps)
    | inr keep ↦
        rw (keep, keep)
          (ap (λ rest. p ∷ rest) (predicates_again (seen ++ c.predicate_text p ∷ []) ps))
  ]

  rank_again :
      (seen : List Str) (rules : Rules)
      → normalize_rank c seen (normalize_rank c seen rules) ≡ normalize_rank c seen rules
  unfolding normalize_rank
  rank_again seen no_rules = refl
  rank_again seen (rule r rules) = elim (Bool-cases (has (c.rule_text r) seen)) [
    | inl skip ↦ rw skip (rank_again seen rules)
    | inr keep ↦ rw (keep, keep) (ap (rule r) (rank_again (seen ++ c.rule_text r ∷ []) rules))
  ]

  -- A selector that is normalized stays as it is when it is normalized again.
  normalize_selector_idempotent :
      (s : Selector) → normalize_selector c (normalize_selector c s) ≡ normalize_selector c s
  unfolding normalize_selector
  normalize_selector_idempotent (selector_face ps rank) =
      rw (predicates_again [] ps, rank_again [] rank) refl
  normalize_selector_idempotent (selector_edge ps rank) =
      rw (predicates_again [] ps, rank_again [] rank) refl
  normalize_selector_idempotent (selector_solid ps rank) =
      rw (predicates_again [] ps, rank_again [] rank) refl
  normalize_selector_idempotent (selector_named name) = refl

  -- The predicates that have been seen hold of the selection.
  abbrev Holding : List Str → Selection N → Type 0
  Holding seen s =
      (p : Predicate) → has (c.predicate_text p) seen ≡ true → predicate_matches p s ≡ ok true

  -- Different predicates have different texts.
  abbrev pub TextsDiffer : Type 0
  TextsDiffer = (p q : Predicate) → c.predicate_text p ≡ c.predicate_text q → p ≡ q

  Holding-snoc :
      (seen : List Str) (p : Predicate) (s : Selection N)
      → TextsDiffer
      → Holding seen s
      → predicate_matches p s ≡ ok true
      → Holding (seen ++ c.predicate_text p ∷ []) s
  Holding-snoc seen p s differ held here q h =
      elim (Bool-cases (c.predicate_text p == c.predicate_text q)) [
        | inl same ↦
            subst (λ r. predicate_matches r s ≡ ok true)
              (differ p q ((==_iff (c.predicate_text p) (c.predicate_text q)).0 same)) here
        | inr other ↦
            held q (rw (has-snoc (c.predicate_text q) (c.predicate_text p) seen, other) at h)
      ]

  every-normalize :
      (seen : List Str) (ps : List Predicate) (s : Selection N)
      → TextsDiffer
      → Holding seen s
      → matches_every (normalize_predicates c seen ps) s ≡ matches_every ps s
  unfolding normalize_predicates matches_every
  every-normalize seen [] s differ held = refl
  every-normalize seen (p ∷ ps) s differ held = elim (Bool-cases (has (c.predicate_text p) seen)) [
    | inl skip ↦ rw (skip, held p skip) (every-normalize seen ps s differ held)
    | inr keep ↦ rw keep (
        only_when_true (predicate_matches p s) _ _ (λ here.
          every-normalize (seen ++ c.predicate_text p ∷ []) ps s differ
            (Holding-snoc seen p s differ held here)))
  ]

  -- Where JSON.stringify gives different predicates different texts, the predicates that are left
  -- match the selections that all of them match, and throw the error that they throw.
  pub normalized_predicates_match :
      (of_kind : Selection N → Bool) (ps : List Predicate) (ss : List (Selection N))
      → TextsDiffer
      → matching of_kind (normalize_predicates c [] ps) ss ≡ matching of_kind ps ss
  unfolding matching has
  normalized_predicates_match of_kind ps [] differ = refl
  normalized_predicates_match of_kind ps (s ∷ ss) differ =
      rw
        (
          every-normalize [] ps s differ (λ p h. absurd (true_not_false (sym h))),
          normalized_predicates_match of_kind ps ss differ,
        )
        refl
