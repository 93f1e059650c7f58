-- ===== src/Graph/Topo/Complete.antt =====
-- src/graph.ts: `topoSortDeterministic` orders all nodes, and fails on cycles only.
use trueform.Base.{
  ℕ, zero, suc, ◌≤◌, ◌<◌, ◌≡◌, refl, ap, ◌∙◌, true, List, [], ◌∷◌, none, arith, length, All,
}
use native.Mathlib.Decide.{dec_lt}
use trueform.Base.Text.{Str, ==_iff}
use trueform.Base.JsMap.{get, has, get-put}
use trueform.Base.Int.{dec}
use trueform.Base.Outcome.{ok}
use trueform.Graph.Topo.{
  Edge, Graph, Kahn, tally, kahn, relax_one, relax, visit, check_features, topo_sort_deterministic,
}
use trueform.Graph.Topo.Counts.{occ, occ_pos_iff-has, waiting, waiting-nil, targets}
use trueform.Graph.Topo.Sizes.{length-le_of_occ, occ-le_of_length}
use trueform.Graph.Topo.Degrees.{degree, outs-tally}
use trueform.Graph.Topo.Keys.{is_key, tally-is_key, get-tally}
use trueform.Graph.Topo.Fuel.{drain_ind, queue-kahn}
use trueform.Graph.Topo.Order.{kahn_of_ok, kahn-OrderedInv}

-- The edges join nodes.
abbrev pub IsClosed : Graph → Type 0
IsClosed g = All (λ e. (0 < occ e.from g.nodes) × (0 < occ e.to g.nodes)) g.edges

pub waiting-le_of_closed :
    (t : Str) (nodes : List Str) (es : List Edge)
    → All (λ e. (0 < occ e.from nodes) × (0 < occ e.to nodes)) es
    → occ t nodes ≡ 0
    → waiting [] es t ≡ 0
unfolding waiting
waiting-le_of_closed t nodes [] h o = refl
waiting-le_of_closed t nodes (e ∷ es) h o =
    ground (arith, waiting-le_of_closed t nodes es h.1 o, ==_iff e.to t)

-- What the loop leaves: an id is emitted once if no edge from an id that was not emitted reaches it.
occ-result : (g : Graph) (t : Str) → occ t (kahn g).result ≤ 1
unfolding occ
occ-result g t = ground (arith, (kahn-OrderedInv g).inv.placed t)

emitted_of_waiting :
    (g : Graph) (t : Str)
    → 0 < occ t g.nodes
    → is_key (get t (kahn g).indegree) ≡ true
    → waiting (kahn g).result g.edges t ≡ 0
    → 0 < occ t (kahn g).result
unfolding occ
emitted_of_waiting g t node key w =
    ground
      (arith, (kahn-OrderedInv g).inv.placed t, (kahn-OrderedInv g).inv.degrees t, queue-kahn g)

-- The loop never drops a key, and adds one for a target only.
pub is_key-relax :
    (t : Str) (ns : List Str) (s : Kahn)
    → is_key (get t s.indegree) ≡ true
    → is_key (get t (relax s ns).indegree) ≡ true
unfolding relax relax_one
is_key-relax t [] s h = h
is_key-relax t (n ∷ ns) s h =
    is_key-relax t ns (relax_one s n)
      (ground (arith, get-put n t (dec (degree n s.indegree)) s.indegree))

pub get-relax :
    (t : Str) (ns : List Str) (s : Kahn)
    → occ t ns ≡ 0
    → get t (relax s ns).indegree ≡ get t s.indegree
unfolding relax relax_one occ
get-relax t [] s h = refl
get-relax t (n ∷ ns) s h =
    ground
      (arith, get-relax t ns (relax_one s n), get-put n t (dec (degree n s.indegree)) s.indegree)

kahn-is_key : (g : Graph) (t : Str) → 0 < occ t g.nodes → is_key (get t (kahn g).indegree) ≡ true
unfolding kahn
kahn-is_key g t h =
    drain_ind (λ s. is_key (get t s.indegree) ≡ true) (tally g).outgoing
      (λ id rest s q k. unfold visit in is_key-relax t _ _ k) _ _ (tally-is_key g t h)

get-kahn :
    (g : Graph) (t : Str)
    → waiting [] g.edges t ≡ 0
    → occ t g.nodes ≡ 0
    → get t (kahn g).indegree ≡ none
unfolding kahn
get-kahn g t w o =
    drain_ind (λ s. get t s.indegree ≡ none) (tally g).outgoing
      (λ id rest s q k.
        unfold visit in
        rw outs-tally
          (get-relax t (targets id g.edges) _ (omega (arith, waiting-nil g.edges t id)) ∙ k))
      _ _ (get-tally g t w o)

-- Only nodes are emitted.
pub occ-result-le_nodes :
    (g : Graph) → IsClosed g → (t : Str) → occ t (kahn g).result ≤ occ t g.nodes
occ-result-le_nodes g closed t = elim (dec_lt 0 (occ t g.nodes)) [
  | yes node ↦ omega (arith, occ-result g t)
  | no outside ↦
      let w = waiting-le_of_closed t g.nodes g.edges closed (omega arith) in
      ground (arith, (kahn-OrderedInv g).inv.placed t, get-kahn g t w)
]

-- An order that is returned holds the nodes of the graph, each as often as the graph lists it.
pub order_permutes_nodes :
    (ids : List Str) (g : Graph) (order : List Str) (t : Str)
    → IsClosed g
    → topo_sort_deterministic ids g ≡ ok order
    → occ t order ≡ occ t g.nodes
order_permutes_nodes ids g order t closed h =
    let (same, long) = kahn_of_ok ids g order h in
    let below = occ-result-le_nodes g closed in
    let above =
      occ-le_of_length (kahn g).result g.nodes below (omega (arith, long, ap length same)) t in
    rw same (omega (arith, below t, above))

-- A number that grows along the edges shows that there is no cycle.
abbrev pub IsRanked : (Str → ℕ) → List Edge → Type 0
IsRanked rank es = All (λ e. rank e.from < rank e.to) es

waiting_of_emitted :
    (rank : Str → ℕ) (nodes seen : List Str) (t : Str) (es : List Edge)
    → IsRanked rank es
    → All (λ e. (0 < occ e.from nodes) × (0 < occ e.to nodes)) es
    → ((u : Str) → 0 < occ u nodes → rank u < rank t → 0 < occ u seen)
    → waiting seen es t ≡ 0
unfolding waiting
waiting_of_emitted rank nodes seen t [] r c h = refl
waiting_of_emitted rank nodes seen t (e ∷ es) r c h = ground (
  arith,
  waiting_of_emitted rank nodes seen t es r.1 c.1 h,
  ==_iff e.to t,
  h e.from,
  occ_pos_iff-has e.from seen,
)

all_emitted :
    (rank : Str → ℕ) (g : Graph)
    → IsClosed g
    → IsRanked rank g.edges
    → (k : ℕ) (t : Str) → rank t < k
    → 0 < occ t g.nodes
    → 0 < occ t (kahn g).result
all_emitted rank g closed ranked zero t below node = absurd (omega arith)
all_emitted rank g closed ranked (suc k) t below node =
    emitted_of_waiting g t node (kahn-is_key g t node) (
      waiting_of_emitted rank g.nodes (kahn g).result t g.edges ranked closed
        (λ u u_node u_below. all_emitted rank g closed ranked k u (omega arith) u_node))

check_features_ok :
    (ids xs : List Str)
    → ((t : Str) → 0 < occ t xs → has t ids ≡ true)
    → check_features ids xs ≡ ok tt
unfolding check_features occ
check_features_ok ids [] h = refl
check_features_ok ids (x ∷ xs) h =
    ground (arith, h x, ==_iff x x, check_features_ok ids xs (λ t o. h t (ground arith)))

-- A graph with no cycle is ordered: distinct nodes that are features, joined by edges along which
-- some number grows.
pub acyclic_ordered :
    (rank : Str → ℕ) (ids : List Str) (g : Graph)
    → IsClosed g
    → IsRanked rank g.edges
    → ((t : Str) → occ t g.nodes ≤ 1)
    → ((t : Str) → 0 < occ t g.nodes → has t ids ≡ true)
    → (order : List Str) × (topo_sort_deterministic ids g ≡ ok order)
unfolding topo_sort_deterministic
acyclic_ordered rank ids g closed ranked distinct features =
    let below = occ-result-le_nodes g closed in
    let all = λ (t : Str) (h : 0 < occ t g.nodes).
      all_emitted rank g closed ranked (suc (rank t)) t (omega arith) h in
    let short = length-le_of_occ (kahn g).result g.nodes below in
    let long = length-le_of_occ g.nodes (kahn g).result (λ t. elim (dec_lt 0 (occ t g.nodes)) [
      | yes h ↦ omega (arith, distinct t, all t h)
      | no h ↦ omega arith
    ]) in
    let checked =
      check_features_ok ids (kahn g).result (λ t h. features t (omega (arith, below t))) in
    ((kahn g).result, ground (arith, checked, short, long))
