-- ===== src/Prepare/Complete.antt =====
-- src/part_preparation.ts: what a prepared part holds.
use trueform.Base.{
  ◌<◌, ◌≡◌, refl, sym, ap, ◌∙◌, true, some, List, [], ◌∷◌, map, arith, All, Bool-cases, inl, inr,
  subst,
}
use trueform.Base.Text.{Str, ◌==◌, ==-self}
use trueform.Base.JsMap.{JsMap, get, put, get-put, keys, has}
use trueform.Base.Value.{Fields}
use trueform.Base.Outcome.{ok, >>=-eq-ok}
use trueform.Ir.Features.{IntentFeature, base_of}
use trueform.Ir.Parts.{IntentPart}
use trueform.Graph.Topo.{topo_sort_deterministic}
use trueform.Graph.Topo.Counts.{occ}
use trueform.Graph.Topo.Complete.{order_permutes_nodes}
use trueform.Graph.Features.{features_by_id}
use trueform.Graph.Dependencies.{build_dependency_graph}
use trueform.Graph.Join.{graph_joins_features, has-by_id, has_of_occ, by_id-IsKeyed, grow, id_of}
use trueform.Execute.Build.Session.{IsHashed}
use trueform.Prepare.{PreparedPart, hash_feature, index_features, prepare_normalized_part}

-- A key of a map has a value.
pub get_of_has {ℓ} :
    {V : Type ℓ} (k : Str) (m : JsMap V) → has k (keys m) ≡ true → (v : V) × (get k m ≡ some v)
unfolding has get
get_of_has k [] h = cc
get_of_has k ((j, v) ∷ m) h = elim (Bool-cases (j == k)) [
  | inl same ↦ (v, rw same refl)
  | inr other ↦ let (found, e) = get_of_has k m (rw other at h) in (found, rw other e)
]

-- Each id of a list has a feature, under the feature's own id.
abbrev pub HaveFeatures : {N : Type 0} → JsMap (IntentFeature N) → List Str → Type 0
HaveFeatures by_id ids =
    All (λ id. (f : IntentFeature _) × (get id by_id ≡ some f) × ((base_of f).id ≡ id)) ids

All-of_occ : {P : Str → Type 0} (xs : List Str) → ((t : Str) → 0 < occ t xs → P t) → All P xs
unfolding occ
All-of_occ [] h = tt
All-of_occ (x ∷ xs) h = (h x (ground (arith, ==-self x)), All-of_occ xs (λ t p. h t (ground arith)))

module _ {N : Type 0} (number_text : N → Str) (fields_of : IntentFeature N → Fields N) where
  index_by_id :
      (fs : List (IntentFeature N)) (m : JsMap (IntentFeature N)) (hs : JsMap Str)
      → (index_features number_text fields_of fs m hs).0 ≡ grow m fs
  unfolding index_features
  index_by_id [] m hs = refl
  index_by_id (f ∷ fs) m hs = index_by_id fs (put (id_of f) f m) _

  put_hash-IsHashed :
      (f : IntentFeature N) (m : JsMap (IntentFeature N)) (hs : JsMap Str)
      → IsHashed (hash_feature number_text fields_of) hs m
      → IsHashed
          (hash_feature number_text fields_of)
          (put (id_of f) (hash_feature number_text fields_of f) hs)
          (put (id_of f) f m)
  put_hash-IsHashed f m hs h = record {
    at = λ id. elim (Bool-cases (id_of f == id)) [
      | inl same ↦
          rw
            (
              get-put (id_of f) id f m,
              get-put (id_of f) id (hash_feature number_text fields_of f) hs,
              same,
            )
            refl
      | inr other ↦
          rw
            (
              get-put (id_of f) id f m,
              get-put (id_of f) id (hash_feature number_text fields_of f) hs,
              other,
            )
            (h.at id)
    ];
  }

  index_features-IsHashed :
      (fs : List (IntentFeature N)) (m : JsMap (IntentFeature N)) (hs : JsMap Str)
      → IsHashed (hash_feature number_text fields_of) hs m
      → IsHashed
          (hash_feature number_text fields_of)
          (index_features number_text fields_of fs m hs).1
          (index_features number_text fields_of fs m hs).0
  unfolding index_features
  index_features-IsHashed [] m hs h = h
  index_features-IsHashed (f ∷ fs) m hs h =
      index_features-IsHashed fs (put (id_of f) f m) _ (put_hash-IsHashed f m hs h)

  abbrev pub IsComplete : IntentPart N → PreparedPart N → Type 0
  IsComplete part p =
      ((t : Str) → occ t p.feature_order ≡ occ t (map id_of part.features))
      × HaveFeatures p.feature_by_id p.feature_order
      × IsHashed (hash_feature number_text fields_of) p.feature_hashes p.feature_by_id

  -- A part that is prepared has an order that lists each feature's id as often as the part has it,
  -- its map gives every id of the order a feature with that id, and the hash of an id is the hash of
  -- the feature that the map gives.
  pub prepared_part-IsComplete :
      (part : IntentPart N) (p : PreparedPart N)
      → prepare_normalized_part number_text fields_of part ≡ ok p
      → IsComplete part p
  unfolding prepare_normalized_part features_by_id get
  prepared_part-IsComplete part p e =
      let (g, built, e') = >>=-eq-ok (build_dependency_graph part.features) _ e in
      let (order, sorted, last) =
        >>=-eq-ok (topo_sort_deterministic (keys (features_by_id part.features)) g) _ e' in
      let (nodes, closed) = graph_joins_features part.features g built in
      let counted = λ (t : Str).
        order_permutes_nodes (keys (features_by_id part.features)) g order t closed sorted
        ∙ ap (occ t) nodes in
      let found : HaveFeatures (features_by_id part.features) order = All-of_occ order (λ t pos.
        let (f, at) = get_of_has t (features_by_id part.features) (
          has-by_id t part.features
          ∙ has_of_occ t (map id_of part.features) (rw (counted t) at pos)) in
        (f, at, by_id-IsKeyed part.features t f at)) in
      subst (λ o. elim o [ ok q ↦ IsComplete part q | _ ↦ Unit ]) last
        (
          counted,
          subst (λ (m : JsMap (IntentFeature N)). HaveFeatures m order)
              (sym (index_by_id part.features [] [])) found,
          index_features-IsHashed part.features [] [] (record { at = λ id. refl }),
        )
