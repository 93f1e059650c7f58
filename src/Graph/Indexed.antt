-- ===== src/Graph/Indexed.antt =====
-- src/graph.ts: the indexes of profiles and outputs name features of the part.
use trueform.Base.{
  ◌≡◌, sym, ◌∙◌, true, Option, none, some, List, [], ◌∷◌, All, Bool-cases, inl, inr, subst,
}
use trueform.Base.Text.{Str, ◌==◌}
use trueform.Base.JsMap.{JsMap, get, put, get-put, has}
use trueform.Ir.Sketches.{SketchProfile}
use trueform.Ir.Features.{IntentFeature, base_of, sketch2d}
use trueform.Graph.Features.{
  truthy, feature_result_name, build_profile_index, build_output_index, index_profiles,
  index_feature_profiles, add_profile, index_output, add_output,
}
use trueform.Graph.Known.{Ensures, Ensures->>=, KnownIndex}

put-KnownIndex :
    (ids : List Str) (index : JsMap Str) (name id : Str)
    → KnownIndex ids index
    → has id ids ≡ true
    → KnownIndex ids (put name id index)
put-KnownIndex ids index name id k h key d e = elim (Bool-cases (name == key)) [
  | inl same ↦
      let found : some id ≡ some d = rw same at (sym (get-put name key id index) ∙ e) in
      let same_id : id ≡ d = cc in subst (λ x. has x ids ≡ true) same_id h
  | inr other ↦ k key d (rw other at (sym (get-put name key id index) ∙ e))
]

add_profile-Known :
    (ids : List Str) (o : Option Str) (name id : Str) (index : JsMap Str)
    → KnownIndex ids index
    → has id ids ≡ true
    → Ensures (KnownIndex ids) (add_profile o name id index)
add_profile-Known ids none name id index k h = put-KnownIndex ids index name id k h
add_profile-Known ids (some x) name id index k h = tt

add_output-Known :
    (ids : List Str) (o : Option Str) (result id : Str) (index : JsMap Str)
    → KnownIndex ids index
    → has id ids ≡ true
    → Ensures (KnownIndex ids) (add_output o result id index)
add_output-Known ids none result id index k h = put-KnownIndex ids index result id k h
add_output-Known ids (some x) result id index k h = tt

index_output-Known :
    (ids : List Str) (o : Option Str) (id : Str) (index : JsMap Str)
    → KnownIndex ids index
    → has id ids ≡ true
    → Ensures (KnownIndex ids) (index_output o id index)
index_output-Known ids none id index k h = k
index_output-Known ids (some r) id index k h =
    add_output-Known ids (truthy (get r index)) r id index k h

module _ {N : Type 0} (ids : List Str) where
  profiles-Known :
      (id : Str) (ps : List (SketchProfile N)) (index : JsMap Str)
      → KnownIndex ids index
      → has id ids ≡ true
      → Ensures (KnownIndex ids) (index_profiles id ps index)
  profiles-Known id [] index k h = k
  profiles-Known id (p ∷ ps) index k h =
      Ensures->>= (KnownIndex ids) (KnownIndex ids)
        (add_profile (truthy (get p.name index)) p.name id index) _
        (add_profile-Known ids (truthy (get p.name index)) p.name id index k h)
        (λ grown g. profiles-Known id ps grown g h)

  feature_profiles-Known :
      (f : IntentFeature N) (index : JsMap Str)
      → KnownIndex ids index
      → has (base_of f).id ids ≡ true
      → Ensures (KnownIndex ids) (index_feature_profiles f index)
  feature_profiles-Known (sketch2d f) index k h = profiles-Known f.base.id f.profiles index k h
  feature_profiles-Known _ index k h = k

  pub profile_index-Known :
      (fs : List (IntentFeature N)) (index : JsMap Str)
      → All (λ f. has (base_of f).id ids ≡ true) fs
      → KnownIndex ids index
      → Ensures (KnownIndex ids) (build_profile_index fs index)
  unfolding build_profile_index
  profile_index-Known [] index all k = k
  profile_index-Known (f ∷ fs) index all k =
      Ensures->>= (KnownIndex ids) (KnownIndex ids) (index_feature_profiles f index) _
        (feature_profiles-Known f index k all.0) (λ grown g. profile_index-Known fs grown all.1 g)

  pub output_index-Known :
      (fs : List (IntentFeature N)) (index : JsMap Str)
      → All (λ f. has (base_of f).id ids ≡ true) fs
      → KnownIndex ids index
      → Ensures (KnownIndex ids) (build_output_index fs index)
  unfolding build_output_index
  output_index-Known [] index all k = k
  output_index-Known (f ∷ fs) index all k =
      Ensures->>= (KnownIndex ids) (KnownIndex ids)
        (index_output (truthy (feature_result_name f)) (base_of f).id index) _
        (index_output-Known ids (truthy (feature_result_name f)) (base_of f).id index k all.0)
        (λ grown g. output_index-Known fs grown all.1 g)
