-- ===== src/Graph/Closed.antt =====
-- src/graph.ts: the edges of `buildDependencyGraph` join features of the part.
use trueform.Base.{
  ◌≡◌, refl, Bool, true, not, ◌&&◌, Option, none, some, List, [], ◌∷◌, ◌++◌, map, All, Bool-cases,
  inl, inr,
}
use trueform.Base.Text.{Str}
use trueform.Base.JsMap.{JsMap, keys, has}
use trueform.Ir.Selectors.{Selector}
use trueform.Ir.Features.{
  IntentFeature, base_of, datum_plane, datum_axis, sketch2d, extrude, plane, sweep, mirror,
  move_body, move_face, draft, thread, hole,
}
use trueform.Graph.Topo.{Edge}
use trueform.Graph.Features.{truthy, feature_selectors}
use trueform.Graph.Inference.{
  add_all, profile_refs, infer_profile_dependencies, infer_pattern_dependency,
  infer_datum_dependencies, add_axis_spec_dep, add_plane_ref_dep,
}
use trueform.Graph.Selecting.{selector_dependencies}
use trueform.Graph.Dependencies.{
  is_none, deps_of, add_pattern, check_explicit, add_selectors, feature_dependencies, feature_edges,
}
use trueform.Graph.Known.{
  Ensures, Ensures->>=, Ensures-map, Known, KnownOption, KnownIndex, Known-add, Known-add_all,
  KnownOption-truthy, add_profile_deps-Known, pattern_dep-Known, add_plane_ref_dep-Known,
  add_axis_spec_dep-Known, add_extrude_axis_dep-Known,
}
use trueform.Graph.Anchors.{IsKeyed, selector-Sound}

module _ {N : Type 0} (by_id : JsMap (IntentFeature N)) where
  datum-Known :
      (f : IntentFeature N) → Ensures (Known (keys by_id)) (infer_datum_dependencies by_id f)
  unfolding infer_datum_dependencies
  datum-Known (datum_plane f) =
      Ensures->>= (Known (keys by_id)) (Known (keys by_id))
        (add_axis_spec_dep by_id f.base.id (some f.normal) []) _
        (add_axis_spec_dep-Known by_id f.base.id (some f.normal) [] tt)
        (λ d k. add_axis_spec_dep-Known by_id f.base.id f.x_axis d k)
  datum-Known (datum_axis f) = add_axis_spec_dep-Known by_id f.base.id (some f.direction) [] tt
  datum-Known (sketch2d f) = add_plane_ref_dep-Known by_id f.base.id f.plane [] tt
  datum-Known (extrude f) = add_extrude_axis_dep-Known by_id f.base.id f.axis [] tt
  datum-Known (plane f) = add_plane_ref_dep-Known by_id f.base.id f.plane [] tt
  datum-Known (sweep f) = add_plane_ref_dep-Known by_id f.base.id f.frame [] tt
  datum-Known (mirror f) = add_plane_ref_dep-Known by_id f.base.id (some f.plane) [] tt
  datum-Known (move_body f) = add_axis_spec_dep-Known by_id f.base.id f.rotation_axis [] tt
  datum-Known (move_face f) = add_axis_spec_dep-Known by_id f.base.id f.rotation_axis [] tt
  datum-Known (draft f) =
      Ensures->>= (Known (keys by_id)) (Known (keys by_id))
        (add_plane_ref_dep by_id f.base.id (some f.neutral_plane) []) _
        (add_plane_ref_dep-Known by_id f.base.id (some f.neutral_plane) [] tt)
        (λ d k. add_axis_spec_dep-Known by_id f.base.id (some f.pull_direction) d k)
  datum-Known (thread f) = add_axis_spec_dep-Known by_id f.base.id (some f.axis) [] tt
  datum-Known _ = tt

  pattern-Known :
      (f : IntentFeature N) → Ensures (KnownOption (keys by_id)) (infer_pattern_dependency by_id f)
  unfolding infer_pattern_dependency
  pattern-Known (hole f) = pattern_dep-Known by_id f.base.id f.pattern
  pattern-Known _ = tt

  add_pattern-Known :
      (o : Option Str) (deps : List Str)
      → KnownOption (keys by_id) o
      → Known (keys by_id) deps
      → Known (keys by_id) (add_pattern o deps)
  add_pattern-Known none deps o k = k
  add_pattern-Known (some d) deps o k = Known-add (keys by_id) deps d k o

  check_explicit-Known :
      (id : Str) (deps : List Str)
      → Ensures (λ t. Known (keys by_id) deps) (check_explicit by_id id deps)
  unfolding check_explicit
  check_explicit-Known id [] = tt
  check_explicit-Known id (d ∷ deps) = elim (Bool-cases (has d (keys by_id))) [
    | inr missing ↦ rw missing tt
    | inl there ↦ rw there (
        Ensures-map (λ t. Known (keys by_id) deps) _ (check_explicit by_id id deps)
          (λ t k. (refl, k)) (check_explicit-Known id deps))
  ]

  add_selectors-Known :
      (keyed : IsKeyed by_id) (outputs : JsMap Str) (known : KnownIndex (keys by_id) outputs)
      (f : IntentFeature N) (explicit : Bool) (ss : List Selector) (deps : List Str)
      → Known (keys by_id) deps
      → Ensures (Known (keys by_id)) (add_selectors by_id outputs f explicit ss deps)
  unfolding add_selectors
  add_selectors-Known keyed outputs known f explicit [] deps k = k
  add_selectors-Known keyed outputs known f explicit (s ∷ ss) deps k =
      Ensures->>= (λ d. Known (keys by_id) d.deps) (Known (keys by_id))
        (selector_dependencies by_id outputs f s) _ (selector-Sound by_id keyed outputs known f s)
        (λ d t. elim (Bool-cases (not d.anchored && not explicit)) [
          | inl bad ↦ rw bad tt
          | inr fine ↦ rw fine (
              add_selectors-Known keyed outputs known f explicit ss (add_all d.deps deps)
                (Known-add_all (keys by_id) d.deps deps t k))
        ])

  feature_dependencies-Known :
      (keyed : IsKeyed by_id) (profiles outputs : JsMap Str) (f : IntentFeature N)
      → KnownIndex (keys by_id) profiles
      → KnownIndex (keys by_id) outputs
      → Ensures (Known (keys by_id)) (feature_dependencies by_id profiles outputs f)
  unfolding feature_dependencies infer_profile_dependencies
  feature_dependencies-Known keyed profiles outputs f p o =
      let ids = keys by_id in
      let explicit = add_all (deps_of (base_of f).deps) [] in
      Ensures->>= (λ t. Known ids explicit) (Known ids)
        (check_explicit by_id (base_of f).id explicit) _
        (check_explicit-Known (base_of f).id explicit)
        (λ t first.
          Ensures->>= (Known ids) (Known ids) (infer_profile_dependencies by_id f profiles) _
            (add_profile_deps-Known by_id (base_of f).id profiles (profile_refs by_id f) [] p tt)
            (λ by_profile k.
              Ensures->>= (KnownOption ids) (Known ids) (infer_pattern_dependency by_id f) _
                (pattern-Known f)
                (λ by_pattern q.
                  Ensures->>= (Known ids) (Known ids) (infer_datum_dependencies by_id f) _
                    (datum-Known f)
                    (λ by_datum d.
                      Ensures->>= (Known ids) (Known ids)
                        (add_selectors by_id outputs f (not (is_none explicit))
                          (feature_selectors f) _)
                        _
                        (add_selectors-Known keyed outputs o f (not (is_none explicit))
                          (feature_selectors f) _
                          (Known-add_all ids by_datum _ d (
                            add_pattern-Known (truthy by_pattern) _
                              (KnownOption-truthy ids by_pattern q)
                              (Known-add_all ids by_profile [] k tt))))
                        (λ inferred i. Known-add_all ids inferred explicit i first)))))

  abbrev pub IsJoin : Edge → Type 0
  IsJoin e = (has e.from (keys by_id) ≡ true) × (has e.to (keys by_id) ≡ true)

  All-append : (xs ys : List Edge) → All IsJoin xs → All IsJoin ys → All IsJoin (xs ++ ys)
  All-append [] ys h k = k
  All-append (x ∷ xs) ys h k = (h.0, All-append xs ys h.1 k)

  edges_to :
      (to : Str) (deps : List Str)
      → has to (keys by_id) ≡ true
      → Known (keys by_id) deps
      → All IsJoin (map (λ dep. record { from = dep; to = to }) deps)
  edges_to to [] h k = tt
  edges_to to (d ∷ deps) h k = ((k.0, h), edges_to to deps h k.1)

  pub feature_edges-All :
      (keyed : IsKeyed by_id) (profiles outputs : JsMap Str) (fs : List (IntentFeature N))
      (edges : List Edge)
      → KnownIndex (keys by_id) profiles
      → KnownIndex (keys by_id) outputs
      → All (λ f. has (base_of f).id (keys by_id) ≡ true) fs
      → All IsJoin edges
      → Ensures (All IsJoin) (feature_edges by_id profiles outputs fs edges)
  unfolding feature_edges
  feature_edges-All keyed profiles outputs [] edges p o all k = k
  feature_edges-All keyed profiles outputs (f ∷ fs) edges p o all k =
      Ensures->>= (Known (keys by_id)) (All IsJoin) (feature_dependencies by_id profiles outputs f)
        _ (feature_dependencies-Known keyed profiles outputs f p o)
        (λ deps d.
          feature_edges-All keyed profiles outputs fs _ p o all.1
            (All-append edges _ k (edges_to (base_of f).id deps all.0 d)))
