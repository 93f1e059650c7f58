-- ===== src/Graph/Anchors.antt =====
-- src/graph.ts: what `selectorDependencies` infers names features of the part.
use trueform.Base.{
  ◌≡◌, refl, true, Option, none, some, List, [], ◌∷◌, arith, All, Bool-cases, Option-cases, inl,
  inr,
}
use trueform.Base.Text.{Str, codes, ◌==◌, ==-self}
use trueform.Base.JsMap.{get-has, JsMap, get, keys, has}
use trueform.Base.Strings.{trim}
use trueform.Ir.Selectors.{
  Selector, selector_face, selector_edge, selector_solid, selector_named, RankRule, closest_to,
  max_area, min_z, max_z, Rules, no_rules, rule, Predicate, pred_normal, pred_planar,
  pred_created_by, pred_role,
}
use trueform.Ir.Features.{IntentFeature, base_of, plane}
use trueform.Graph.Features.{truthy, is_plane_or_frame}
use trueform.Graph.References.{
  is_empty_text, parse_named_selector_references, is_implicit_selection_reference,
  is_legacy_transient_selection_reference, parse_stable_selection_reference,
  normalize_selection_reference_token, is_canonical_plane_alias,
}
use trueform.Graph.Selecting.{
  SelectorDeps, anchor, same_token, id_or, resolve_stable_selection_dependency, plane_reference,
  resolve_feature_plane_named_reference, accept_plane, is_sketch, other_name, stable_or_other,
  output_or_other, named_dependencies, predicate_dependencies, nothing_yet, selector_dependencies,
  rank_dependencies, rule_dependencies, or_self, after_exact,
}
use trueform.Graph.Known.{
  Ensures, Ensures->>=, Known, KnownOption, KnownIndex, Known-add, Known-add_all,
  KnownOption-truthy, KnownOption-of_index, found-has,
}

-- Every entry stands under the id of its feature.
abbrev pub IsKeyed : {N : Type 0} → JsMap (IntentFeature N) → Type 0
IsKeyed by_id = (id : Str) (f : IntentFeature _) → get id by_id ≡ some f → (base_of f).id ≡ id

Known-self :
    (all rest : List Str) → ((k : Str) → has k rest ≡ true → has k all ≡ true) → Known all rest
unfolding has
Known-self all [] h = tt
Known-self all (x ∷ rest) h =
    (h x (rw (==-self x) refl), Known-self all rest (λ k q. h k (ground (arith, q))))

module _ {N : Type 0} (by_id : JsMap (IntentFeature N)) (keyed : IsKeyed by_id) where
  same_token-Known :
      (target : Str) (all ids : List Str)
      → All (λ k. has k all ≡ true) ids
      → KnownOption all (same_token by_id target ids)
  same_token-Known target all [] k = tt
  same_token-Known target all (id ∷ ids) k =
      elim (Bool-cases (normalize_selection_reference_token id == target)) [
        | inl same ↦ rw same k.0
        | inr other ↦ rw other (same_token-Known target all ids k.1)
      ]

  id_or-Known :
      (token : Str) (o : Option Str)
      → KnownOption (keys by_id) o
      → KnownOption (keys by_id) (id_or by_id (get token by_id) o)
  id_or-Known token o k = elim (Option-cases (get token by_id)) [
    | inl gone ↦ rw gone k
    | inr hit ↦ rw hit.1 (rw (keyed token hit.0 hit.1) (get-has token by_id hit.1))
  ]

  resolve_stable-Known :
      (value : Str) → KnownOption (keys by_id) (resolve_stable_selection_dependency by_id value)
  unfolding resolve_stable_selection_dependency
  resolve_stable-Known value = elim (Option-cases (parse_stable_selection_reference value)) [
    | inl gone ↦ rw gone tt
    | inr r ↦ rw r.1 (
        id_or-Known r.0.created_by_token _ (
          same_token-Known (normalize_selection_reference_token r.0.created_by_token) (keys by_id)
            (keys by_id) (Known-self (keys by_id) (keys by_id) (λ k h. h))))
  ]

  -- The dependencies that are found are known.
  abbrev Sound : SelectorDeps → Type 0
  Sound d = Known (keys by_id) d.deps

  anchor-Sound :
      (dep : Str) (d : SelectorDeps) → Sound d → has dep (keys by_id) ≡ true → Sound (anchor dep d)
  anchor-Sound dep d s h = Known-add (keys by_id) d.deps dep s h

  abbrev KnownPlane : Option (Option Str) → Type 0
  KnownPlane none = Unit
  KnownPlane (some o) = KnownOption (keys by_id) o

  plane_reference-Known : (name : Str) → KnownPlane (plane_reference by_id name)
  plane_reference-Known [] = tt
  plane_reference-Known (c ∷ s) =
      let datum_id = or_self (after_exact (codes "datum:") (c ∷ s)) (c ∷ s) in
      elim (Bool-cases (is_canonical_plane_alias (c ∷ s))) [
        | inl alias ↦ rw alias tt
        | inr other ↦ rw other (elim (Bool-cases (is_plane_or_frame (get datum_id by_id))) [
          | inl there ↦
              let known = found-has by_id datum_id is_plane_or_frame refl there in
              rw there (elim (Bool-cases (is_empty_text datum_id)) [
                | inl blank ↦ rw blank tt
                | inr text ↦ rw text known
              ])
          | inr missing ↦ rw missing (elim (Bool-cases (is_empty_text datum_id)) [
            | inl blank ↦ rw blank tt
            | inr text ↦ rw text tt
          ])
        ])
      ]

  resolve_plane-Known :
      (f : IntentFeature N) (name : Str)
      → KnownPlane (resolve_feature_plane_named_reference by_id f name)
  unfolding resolve_feature_plane_named_reference
  resolve_plane-Known (plane f) name = plane_reference-Known (trim name)
  resolve_plane-Known _ name = tt

  accept_plane-Sound :
      (id name : Str) (o : Option (Option Str)) (d : SelectorDeps)
      → KnownPlane o
      → Sound d
      → Ensures Sound (accept_plane by_id id name o d)
  accept_plane-Sound id name none d k s = tt
  accept_plane-Sound id name (some none) d k s = s
  accept_plane-Sound id name (some (some dep)) d k s = anchor-Sound dep d s k

  other_name-Sound :
      (f : IntentFeature N) (name : Str) (d : SelectorDeps)
      → Sound d
      → Ensures Sound (other_name by_id f name d)
  other_name-Sound f name d s = elim (Bool-cases (is_legacy_transient_selection_reference name)) [
    | inl old ↦ rw old tt
    | inr new ↦ rw new (elim (Bool-cases (is_implicit_selection_reference name)) [
      | inl implicit ↦ rw implicit (elim (Bool-cases (is_sketch by_id f)) [
        | inl sketch ↦ rw sketch s
        | inr solid ↦ rw solid s
      ])
      | inr other ↦ rw other (
          accept_plane-Sound (base_of f).id name
            (resolve_feature_plane_named_reference by_id f name) d (resolve_plane-Known f name) s)
    ])
  ]

  stable_or_other-Sound :
      (f : IntentFeature N) (name : Str) (o : Option Str) (d : SelectorDeps)
      → KnownOption (keys by_id) o
      → Sound d
      → Ensures Sound (stable_or_other by_id f name o d)
  stable_or_other-Sound f name none d k s = other_name-Sound f name d s
  stable_or_other-Sound f name (some dep) d k s = anchor-Sound dep d s k

  output_or_other-Sound :
      (f : IntentFeature N) (name : Str) (o : Option Str) (d : SelectorDeps)
      → KnownOption (keys by_id) o
      → Sound d
      → Ensures Sound (output_or_other by_id f name o d)
  output_or_other-Sound f name none d k s =
      stable_or_other-Sound f name (truthy (resolve_stable_selection_dependency by_id name)) d
        (KnownOption-truthy (keys by_id) (resolve_stable_selection_dependency by_id name)
          (resolve_stable-Known name))
        s
  output_or_other-Sound f name (some dep) d k s = anchor-Sound dep d s k

  named-Sound :
      (f : IntentFeature N) (outputs : JsMap Str) (names : List Str) (d : SelectorDeps)
      → KnownIndex (keys by_id) outputs
      → Sound d
      → Ensures Sound (named_dependencies by_id f outputs names d)
  unfolding named_dependencies
  named-Sound f outputs [] d k s = s
  named-Sound f outputs (name ∷ names) d k s =
      Ensures->>= Sound Sound (output_or_other by_id f name (truthy (get name outputs)) d) _
        (output_or_other-Sound f name (truthy (get name outputs)) d
          (KnownOption-of_index (keys by_id) outputs name k) s)
        (λ e t. named-Sound f outputs names e k t)

  predicates-Sound :
      (f : IntentFeature N) (ps : List Predicate) (d : SelectorDeps)
      → Sound d
      → Ensures Sound (predicate_dependencies by_id f ps d)
  unfolding predicate_dependencies
  predicates-Sound f [] d s = s
  predicates-Sound f (pred_normal v ∷ ps) d s = predicates-Sound f ps d s
  predicates-Sound f (pred_planar ∷ ps) d s = predicates-Sound f ps d s
  predicates-Sound f (pred_role v ∷ ps) d s = predicates-Sound f ps d s
  predicates-Sound f (pred_created_by ref ∷ ps) d s = elim (Option-cases (get ref by_id)) [
    | inl gone ↦ rw gone tt
    | inr hit ↦
        rw hit.1
          (predicates-Sound f ps (anchor ref d) (anchor-Sound ref d s (get-has ref by_id hit.1)))
  ]

  module _ (outputs : JsMap Str) (known : KnownIndex (keys by_id) outputs)
      (f : IntentFeature N) where
    mutual
      unfolding selector_dependencies rank_dependencies rule_dependencies

      pub selector-Sound : (s : Selector) → Ensures Sound (selector_dependencies by_id outputs f s)
      selector-Sound (selector_named name) =
          named-Sound f outputs (parse_named_selector_references name) nothing_yet known tt
      selector-Sound (selector_face ps rank) =
          Ensures->>= Sound Sound (predicate_dependencies by_id f ps nothing_yet) _
            (predicates-Sound f ps nothing_yet tt) (λ d t. rank-Sound rank d t)
      selector-Sound (selector_edge ps rank) =
          Ensures->>= Sound Sound (predicate_dependencies by_id f ps nothing_yet) _
            (predicates-Sound f ps nothing_yet tt) (λ d t. rank-Sound rank d t)
      selector-Sound (selector_solid ps rank) =
          Ensures->>= Sound Sound (predicate_dependencies by_id f ps nothing_yet) _
            (predicates-Sound f ps nothing_yet tt) (λ d t. rank-Sound rank d t)

      rank-Sound :
          (rules : Rules) (d : SelectorDeps)
          → Sound d
          → Ensures Sound (rank_dependencies by_id outputs f rules d)
      rank-Sound no_rules d s = s
      rank-Sound (rule r rules) d s =
          Ensures->>= Sound Sound (rule_dependencies by_id outputs f r d) _ (rule-Sound r d s)
            (λ e t. rank-Sound rules e t)

      rule-Sound :
          (r : RankRule) (d : SelectorDeps)
          → Sound d
          → Ensures Sound (rule_dependencies by_id outputs f r d)
      rule-Sound max_area d s = s
      rule-Sound min_z d s = s
      rule-Sound max_z d s = s
      rule-Sound (closest_to target) d s =
          Ensures->>= Sound Sound (selector_dependencies by_id outputs f target) _
            (selector-Sound target) (λ n t. Known-add_all (keys by_id) n.deps d.deps t s)
