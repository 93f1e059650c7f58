-- ===== src/Graph/Join.antt =====
-- src/graph.ts: the graph of a part joins its features, so its order is found or a cycle is reported.
use trueform.Base.{
  ℕ, ◌<◌, ◌≤◌, ◌≡◌, refl, sym, ap, ◌∙◌, true, ◌||◌, some, List, [], ◌∷◌, map, foldl, arith,
  if◌then◌else◌, All, All-map, Bool-cases, inl, inr, subst,
}
use trueform.Base.Text.{Str, ◌==◌, ==-self, ==_iff}
use trueform.Base.JsMap.{JsMap, get, put, get-put, keys, has}
use trueform.Base.Outcome.{ok}
use trueform.Ir.Features.{IntentFeature, base_of}
use trueform.Graph.Topo.{Graph, Edge, topo_sort_deterministic}
use trueform.Graph.Topo.Counts.{occ, occ_pos_iff-has}
use trueform.Graph.Topo.Complete.{IsClosed, IsRanked, acyclic_ordered}
use trueform.Graph.Features.{features_by_id, build_profile_index, build_output_index}
use trueform.Graph.Dependencies.{feature_edges, build_dependency_graph}
use trueform.Graph.Known.{Ensures, Ensures->>=, KnownIndex}
use trueform.Graph.Anchors.{IsKeyed}
use trueform.Graph.Closed.{IsJoin, feature_edges-All}
use trueform.Graph.Indexed.{profile_index-Known, output_index-Known}

has-keys-put {ℓ} :
    {V : Type ℓ} (j k : Str) (v : V) (m : JsMap V)
    → has j (keys (put k v m)) ≡ (if k == j then true else has j (keys m))
unfolding has put
has-keys-put j k v [] = refl
has-keys-put j k v ((i, w) ∷ m) = elim (Bool-cases (i == k)) [
  | inl same ↦ rw same (ground (arith, ==_iff i k, ==_iff i j, ==_iff k j))
  | inr other ↦ rw other (ground (arith, has-keys-put j k v m))
]

pub has_of_occ : (t : Str) (xs : List Str) → 0 < occ t xs → has t xs ≡ true
has_of_occ t xs h = elim (Bool-cases (has t xs)) [
  | inl there ↦ there
  | inr missing ↦ absurd (omega (arith, h, (occ_pos_iff-has t xs).1 missing))
]

module _ {N : Type 0} where
  abbrev pub id_of : IntentFeature N → Str
  id_of f = (base_of f).id

  abbrev pub grow : JsMap (IntentFeature N) → List (IntentFeature N) → JsMap (IntentFeature N)
  grow = foldl (λ m f. put (base_of f).id f m)

  put-IsKeyed :
      (m : JsMap (IntentFeature N)) (f : IntentFeature N) → IsKeyed m → IsKeyed (put (id_of f) f m)
  put-IsKeyed m f keyed id x e = elim (Bool-cases (id_of f == id)) [
    | inl same ↦
        let found : some f ≡ some x = rw same at (sym (get-put (id_of f) id f m) ∙ e) in
        let one : f ≡ x = cc in sym (ap id_of one) ∙ (==_iff (id_of f) id).0 same
    | inr other ↦ keyed id x (rw other at (sym (get-put (id_of f) id f m) ∙ e))
  ]

  pub grow-IsKeyed :
      (fs : List (IntentFeature N)) (m : JsMap (IntentFeature N)) → IsKeyed m → IsKeyed (grow m fs)
  grow-IsKeyed [] m k = k
  grow-IsKeyed (f ∷ fs) m k = grow-IsKeyed fs (put (id_of f) f m) (put-IsKeyed m f k)

  pub has-grow :
      (k : Str) (fs : List (IntentFeature N)) (m : JsMap (IntentFeature N))
      → has k (keys (grow m fs)) ≡ (has k (keys m) || has k (map id_of fs))
  unfolding has
  has-grow k [] m = ground arith
  has-grow k (f ∷ fs) m =
      ground (arith, has-grow k fs (put (id_of f) f m), has-keys-put k (id_of f) f m)

  pub has-by_id :
      (k : Str) (fs : List (IntentFeature N))
      → has k (keys (features_by_id fs)) ≡ has k (map id_of fs)
  unfolding features_by_id has
  has-by_id k fs = has-grow k fs []

  pub by_id-IsKeyed : (fs : List (IntentFeature N)) → IsKeyed (features_by_id fs)
  unfolding features_by_id get
  by_id-IsKeyed fs = grow-IsKeyed fs [] (λ id f e. cc)

  All-have :
      (ids : List Str) (fs : List (IntentFeature N))
      → ((k : Str) → has k (map id_of fs) ≡ true → has k ids ≡ true)
      → All (λ f. has (base_of f).id ids ≡ true) fs
  unfolding has
  All-have ids [] h = tt
  All-have ids (f ∷ fs) h =
      (h (id_of f) (rw (==-self (id_of f)) refl), All-have ids fs (λ k q. h k (ground (arith, q))))

  -- The graph of a list of features: their ids, joined by edges.
  abbrev pub IsGraphOf : List (IntentFeature N) → Graph → Type 0
  IsGraphOf fs g = (g.nodes ≡ map (λ f. (base_of f).id) fs) × IsClosed g

  join-occ :
      (fs : List (IntentFeature N)) (es : List Edge)
      → All (IsJoin (features_by_id fs)) es
      → All (λ e. (0 < occ e.from (map id_of fs)) × (0 < occ e.to (map id_of fs))) es
  join-occ fs es h =
      All-map es
        (λ e j. (
          (occ_pos_iff-has e.from (map id_of fs)).0 (sym (has-by_id e.from fs) ∙ j.0),
          (occ_pos_iff-has e.to (map id_of fs)).0 (sym (has-by_id e.to fs) ∙ j.1),
        ))
        h

  graph-Ensures : (fs : List (IntentFeature N)) → Ensures (IsGraphOf fs) (build_dependency_graph fs)
  unfolding build_dependency_graph get
  graph-Ensures fs =
      let ids = keys (features_by_id fs) in
      let all = All-have ids fs (λ k h. has-by_id k fs ∙ h) in
      Ensures->>= (KnownIndex ids) (IsGraphOf fs) (build_profile_index fs []) _
        (profile_index-Known ids fs [] all (λ name d e. cc))
        (λ profiles p.
          Ensures->>= (KnownIndex ids) (IsGraphOf fs) (build_output_index fs []) _
            (output_index-Known ids fs [] all (λ name d e. cc))
            (λ outputs o.
              Ensures->>= (All (IsJoin (features_by_id fs))) (IsGraphOf fs)
                (feature_edges (features_by_id fs) profiles outputs fs []) _
                (feature_edges-All (features_by_id fs) (by_id-IsKeyed fs) profiles outputs fs [] p o
                  all tt)
                (λ edges h. (refl, join-occ fs edges h))))

  -- A dependency graph that is built has the ids of the features as its nodes, in their order, and
  -- each of its edges joins two of them: whatever a feature states or a profile, pattern, datum or
  -- selector implies is resolved to a feature of the part, or it is an error.
  pub graph_joins_features :
      (features : List (IntentFeature N)) (g : Graph)
      → build_dependency_graph features ≡ ok g
      → IsGraphOf features g
  graph_joins_features features g e =
      subst (Ensures (IsGraphOf features)) e (graph-Ensures features)

  -- A part whose features have distinct ids and whose dependencies have no cycle is ordered: along its
  -- edges some number grows.
  pub acyclic_part_ordered :
      (rank : Str → ℕ) (features : List (IntentFeature N)) (g : Graph)
      → build_dependency_graph features ≡ ok g
      → IsRanked rank g.edges
      → ((t : Str) → occ t (map (λ f. (base_of f).id) features) ≤ 1)
      → (order : List Str) × (topo_sort_deterministic (keys (features_by_id features)) g ≡ ok order)
  acyclic_part_ordered rank features g e ranked distinct =
      let (nodes, closed) = graph_joins_features features g e in
      acyclic_ordered rank (keys (features_by_id features)) g closed ranked
        (λ t. rw nodes (distinct t))
        (λ t h. has-by_id t features ∙ has_of_occ t (map id_of features) (rw nodes at h))
