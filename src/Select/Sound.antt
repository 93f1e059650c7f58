-- ===== src/Select/Sound.antt =====
-- src/selectors.ts: a selector that is resolved.
use Prim.Native.Nat.{Ordering}
use mathlib.Core.List.{Memᴰ}
use trueform.Base.{
  ◌≡◌, ◌≢◌, inl, inr, refl, true, List, [], ◌∷◌, All, All-map, if◌then◌else◌, Bool-cases, subst,
  sym,
}
use trueform.Base.Text.{Str, codes}
use trueform.Base.Numbers.{Numbers}
use trueform.Base.Outcome.{Outcome, ok, err, ◌>>=◌, selector_ambiguous}
use trueform.Kernel.{SelectionKind, face, edge, solid, surface}
use trueform.Ir.Selectors.{
  Predicate, Selector, selector_face, selector_edge, selector_solid, selector_named, RankRule,
  max_area, min_z, max_z, closest_to, Rules, no_rules, rule,
}
use trueform.Select.Context.{Selection, ResolutionContext}
use trueform.Select.Matching.{selection_center, require_number, matching}
use trueform.Select.Picking.{same_kind}
use trueform.Select.Found.{All-self, IsOf, NonEmpty, named_set-Surely}
use trueform.Select.Surely.{Surely, Surely->>=, Surely-map, Surely-not_ambiguous}
use trueform.Select.Matched.{Holds, Matched, matching-Surely}
use trueform.Select.Ranked.{
  Any, best_by-Surely, single_or_best-Surely, unless_single-Surely, must_match-Surely,
  must_remain-Surely, center-Surely, number-Surely, centers-Surely, closeness-Surely,
  checked-Surely,
}
use trueform.Select.Resolve.{
  single_or_best, must_match, must_remain, is_single, resolve_selector_set, apply_ranking, rank_by,
  validate_rules, validate_rule, rank_once, resolve_selector,
}

-- What a resolved selection is, by the form of the selector.
abbrev pub Resolves : {N : Type 0} → ResolutionContext N → Selector → Selection N → Type 0
Resolves ctx (selector_face predicates rank) s =
    Memᴰ s ctx.selections × (s.kind ≡ face) × All (λ p. Holds p s) predicates
Resolves ctx (selector_edge predicates rank) s =
    Memᴰ s ctx.selections × (s.kind ≡ edge) × All (λ p. Holds p s) predicates
Resolves ctx (selector_solid predicates rank) s =
    Memᴰ s ctx.selections × (s.kind ≡ solid) × All (λ p. Holds p s) predicates
Resolves ctx (selector_named name) s = IsOf ctx s

same_kind-eq : (a b : SelectionKind) → same_kind a b ≡ true → a ≡ b
same_kind-eq face face e = refl
same_kind-eq edge edge e = refl
same_kind-eq solid solid e = refl
same_kind-eq surface surface e = refl
same_kind-eq _ _ e = cc

-- One of a list.
abbrev In : {N : Type 0} → List (Selection N) → Selection N → Type 0
In all s = Memᴰ s all

of_mem :
    {N : Type 0} (P : Selection N → Type 0) (s : Selection N) (ss : List (Selection N))
    → All P ss
    → Memᴰ s ss
    → P s
of_mem P s [] h m = elim m [ ]
of_mem P s (x ∷ ss) h (Memᴰ.head e) = subst P (sym e) h.0
of_mem P s (x ∷ ss) h (Memᴰ.tail m) = of_mem P s ss h.1 m

module _ {N : Type 0} (num_ops : Numbers N) (collate : Str → Str → Ordering)
    (ctx : ResolutionContext N) where
  abbrev Good : Selector → List (Selection N) → Type 0
  Good selector ss = NonEmpty ss × All (Resolves ctx selector) ss

  -- The candidates of a kind, and what is left after a ranking that keeps what they have.
  candidates-Surely :
      (kind : SelectionKind) (predicates : List Predicate)
      (rank : List (Selection N) → Outcome (List (Selection N)))
      → ((all cs : List (Selection N)) → All (In all) cs → Surely (All (In all)) (rank cs))
      → Surely
          (λ ss.
            NonEmpty ss
            × All
                (λ s. Memᴰ s ctx.selections × (s.kind ≡ kind) × All (λ p. Holds p s) predicates)
                ss)
          (matching (λ s. same_kind s.kind kind) predicates ctx.selections
            >>= must_match num_ops collate
            >>= rank
            >>= must_remain num_ops collate)
  candidates-Surely kind predicates rank keeps =
      let P : Selection N → Type 0 =
        λ s. Memᴰ s ctx.selections × (s.kind ≡ kind) × All (λ p. Holds p s) predicates in
      let M : Selection N → Type 0 =
        Matched (λ s. Memᴰ s ctx.selections) (λ s. same_kind s.kind kind) predicates in
      let found = matching (λ s. same_kind s.kind kind) predicates ctx.selections in
      Surely->>= (All P) _ (found >>= must_match num_ops collate >>= rank) _
        (Surely->>= (All P) (All P) (found >>= must_match num_ops collate) rank
          (Surely->>= (All P) (All P) found (must_match num_ops collate)
            (Surely-map (All M) (All P) found
              (λ ss h. All-map ss (λ s m. (m.0, same_kind-eq s.kind kind m.1, m.2)) h)
              (matching-Surely (λ s. Memᴰ s ctx.selections) _ predicates ctx.selections
                (All-self ctx.selections)))
            (must_match-Surely num_ops collate P))
          (λ cs h.
            Surely-map _ _ (rank cs) (λ ss k. All-map ss (λ s m. of_mem P s cs h m) k)
              (keeps cs cs (All-self cs))))
        (must_remain-Surely num_ops collate P)

  step-Surely :
      (P : Selection N → Type 0) (current : List (Selection N)) (k : All P current)
      (later : Outcome (List (Selection N)))
      → Surely (All P) later
      → Surely (All P) (if is_single num_ops collate current then ok current else later)
  step-Surely P current k later h = elim (Bool-cases (is_single num_ops collate current)) [
    | inl one ↦ rw one k
    | inr more ↦ rw more h
  ]

  -- The center of the target of a rule.
  target-Surely :
      (target : Selector)
      → Surely (Good target) (resolve_selector_set num_ops collate ctx target)
      → Surely Any (
          resolve_selector_set num_ops collate ctx target
          >>= single_or_best num_ops collate
          >>= selection_center)
  target-Surely target h =
      Surely->>= (Resolves ctx target) Any
        (resolve_selector_set num_ops collate ctx target >>= single_or_best num_ops collate) _
        (Surely->>= (Good target) (Resolves ctx target)
          (resolve_selector_set num_ops collate ctx target) _ h
          (λ ss g. single_or_best-Surely num_ops collate (Resolves ctx target) ss g.0 g.1))
        (λ s u. center-Surely num_ops collate s)

  mutual
    unfolding resolve_selector_set apply_ranking rank_by validate_rules validate_rule rank_once

    pub set-Surely :
        (sel : Selector) → Surely (Good sel) (resolve_selector_set num_ops collate ctx sel)
    set-Surely (selector_face predicates rank) =
        candidates-Surely face predicates _ (λ all cs h. apply-Surely rank all cs h)
    set-Surely (selector_edge predicates rank) =
        candidates-Surely edge predicates _ (λ all cs h. apply-Surely rank all cs h)
    set-Surely (selector_solid predicates rank) =
        candidates-Surely solid predicates _ (λ all cs h. apply-Surely rank all cs h)
    set-Surely (selector_named name) = named_set-Surely collate ctx name

    pub apply-Surely :
        (rank : Rules) (all cs : List (Selection N))
        → All (In all) cs
        → Surely (All (In all)) (apply_ranking num_ops collate ctx rank cs)
    apply-Surely no_rules all cs h = h
    apply-Surely (rule r rules) all cs h =
        Surely->>= Any (All (In all)) (validate_rule num_ops collate ctx r cs) _
          (validate-Surely r cs)
          (λ u v.
            Surely->>= Any (All (In all)) (validate_rules num_ops collate ctx rules cs) _
              (validates-Surely rules cs)
              (λ u' v'.
                Surely->>= (All (In all)) (All (In all)) (rank_once num_ops collate ctx r cs) _
                  (once-Surely r all cs h)
                  (λ current k.
                    step-Surely (In all) current k (rank_by num_ops collate ctx rules current)
                      (by-Surely rules all current k))))

    pub by-Surely :
        (rank : Rules) (all cs : List (Selection N))
        → All (In all) cs
        → Surely (All (In all)) (rank_by num_ops collate ctx rank cs)
    by-Surely no_rules all cs h = h
    by-Surely (rule r rules) all cs h =
        Surely->>= (All (In all)) (All (In all)) (rank_once num_ops collate ctx r cs) _
          (once-Surely r all cs h)
          (λ current k.
            step-Surely (In all) current k (rank_by num_ops collate ctx rules current)
              (by-Surely rules all current k))

    pub validates-Surely :
        (rank : Rules) (cs : List (Selection N))
        → Surely Any (validate_rules num_ops collate ctx rank cs)
    validates-Surely no_rules cs = tt
    validates-Surely (rule r rules) cs =
        Surely->>= Any Any (validate_rule num_ops collate ctx r cs) _ (validate-Surely r cs)
          (λ u v. validates-Surely rules cs)

    pub validate-Surely :
        (r : RankRule) (cs : List (Selection N))
        → Surely Any (validate_rule num_ops collate ctx r cs)
    validate-Surely (closest_to target) cs =
        Surely->>= Any Any
          (resolve_selector_set num_ops collate ctx target
            >>= single_or_best num_ops collate
            >>= selection_center)
          _ (target-Surely target (set-Surely target)) (λ t u. centers-Surely num_ops collate cs)
    validate-Surely max_area cs =
        checked-Surely num_ops collate _ cs (number-Surely num_ops collate (codes "area"))
    validate-Surely min_z cs =
        checked-Surely num_ops collate _ cs (number-Surely num_ops collate (codes "centerZ"))
    validate-Surely max_z cs =
        checked-Surely num_ops collate _ cs (number-Surely num_ops collate (codes "centerZ"))

    pub once-Surely :
        (r : RankRule) (all cs : List (Selection N))
        → All (In all) cs
        → Surely (All (In all)) (rank_once num_ops collate ctx r cs)
    once-Surely (closest_to target) all cs h =
        unless_single-Surely num_ops collate (In all) cs _ h (
          Surely->>= Any (All (In all))
            (resolve_selector_set num_ops collate ctx target
              >>= single_or_best num_ops collate
              >>= selection_center)
            _ (target-Surely target (set-Surely target))
            (λ t u.
              best_by-Surely num_ops collate (In all) _ cs (closeness-Surely num_ops collate t) h))
    once-Surely max_area all cs h = unless_single-Surely num_ops collate (In all) cs _ h (
        best_by-Surely num_ops collate (In all) _ cs (number-Surely num_ops collate (codes "area"))
          h)
    once-Surely min_z all cs h = unless_single-Surely num_ops collate (In all) cs _ h (
        best_by-Surely num_ops collate (In all) _ cs
          (λ c.
            Surely->>= Any Any (require_number num_ops c (codes "centerZ")) _
              (number-Surely num_ops collate (codes "centerZ") c) (λ z u. tt))
          h)
    once-Surely max_z all cs h = unless_single-Surely num_ops collate (In all) cs _ h (
        best_by-Surely num_ops collate (In all) _ cs
          (number-Surely num_ops collate (codes "centerZ")) h)

  resolved-Surely :
      (sel : Selector) → Surely (Resolves ctx sel) (resolve_selector num_ops collate ctx sel)
  unfolding resolve_selector
  resolved-Surely sel =
      Surely->>= (Good sel) (Resolves ctx sel) (resolve_selector_set num_ops collate ctx sel) _
        (set-Surely sel)
        (λ ss g. single_or_best-Surely num_ops collate (Resolves ctx sel) ss g.0 g.1)

  -- A face, edge or solid selector that is resolved gives a selection of the context's list, of that
  -- kind, whose metadata meets every predicate. A named selector gives a selection of the list or of
  -- the names.
  pub resolved_selection_matches :
      (sel : Selector) (s : Selection N)
      → resolve_selector num_ops collate ctx sel ≡ ok s
      → Resolves ctx sel s
  resolved_selection_matches sel s e = subst (Surely (Resolves ctx sel)) e (resolved-Surely sel)

  -- No selector is ambiguous: whatever the context and the ranking, `selector_ambiguous` is not thrown.
  pub selector_never_ambiguous :
      (sel : Selector) → resolve_selector num_ops collate ctx sel ≢ err selector_ambiguous
  selector_never_ambiguous sel = Surely-not_ambiguous (Resolves ctx sel) _ (resolved-Surely sel)
