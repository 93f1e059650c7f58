-- ===== src/Graph/Topo/Tests.antt =====
-- src/graph.ts: `topoSortDeterministic` on a part with a base, two bosses and their union.
use trueform.Base.{◌≤◌, ◌<◌, ◌≡◌, refl, true, false, List, [], ◌∷◌, arith, length, All}
use mathlib.Core.List.{Memᴰ}
use trueform.Base.Text.{Str, codes, ◌==◌, ==_iff, str_lt}
use trueform.Base.JsMap.{has, get, put}
use trueform.Base.Outcome.{ok, err, cycle}
use trueform.Graph.Topo.{
  Edge, Graph, kahn, tally, drain, insert_sorted, topo_sort_deterministic, sort, insert, roots,
  visit, relax, relax_one, check_features,
}
use trueform.Graph.Topo.Counts.{occ}
use trueform.Graph.Topo.Fuel.{queue-kahn}
use trueform.Graph.Topo.Order.{order_respects_edges}
use trueform.Graph.Topo.Complete.{order_permutes_nodes, acyclic_ordered}
use trueform.Graph.Topo.Insertion.{insert_sorted-eq-insert}
use trueform.Graph.Topo.Least.{order_deterministic}

abbrev base : Str
base = codes "a"

abbrev boss : Str
boss = codes "b"

abbrev sum : Str
sum = codes "cc"

abbrev base_first : Edge
base_first = record { from = base; to = sum }

abbrev boss_first : Edge
boss_first = record { from = boss; to = sum }

abbrev part : Graph
part = record { nodes = sum ∷ boss ∷ base ∷ []; edges = base_first ∷ boss_first ∷ [] }

abbrev part_reordered : Graph
part_reordered = record {
  nodes = base ∷ sum ∷ boss ∷ [];
  edges = boss_first ∷ base_first ∷ boss_first ∷ [];
}

abbrev in_order : List Str
in_order = base ∷ boss ∷ sum ∷ []

part_order : topo_sort_deterministic part.nodes part ≡ ok in_order
unfolding topo_sort_deterministic has ◌==◌ kahn drain tally put sort roots get str_lt visit relax
    relax_one insert_sorted check_features
part_order = refl

part_reordered_order : topo_sort_deterministic part_reordered.nodes part_reordered ≡ ok in_order
unfolding topo_sort_deterministic has ◌==◌ kahn drain tally put sort roots get str_lt visit relax
    relax_one insert_sorted check_features
part_reordered_order = refl

abbrev circle : Graph
circle = record {
  nodes = base ∷ boss ∷ [];
  edges = record { from = base; to = boss } ∷ record { from = boss; to = base } ∷ [];
}

circle_refused : topo_sort_deterministic circle.nodes circle ≡ err (cycle circle.nodes)
unfolding topo_sort_deterministic has ◌==◌ kahn drain tally put sort roots get
circle_refused = refl

part-IsClosed : All (λ e. (0 < occ e.from part.nodes) × (0 < occ e.to part.nodes)) part.edges
unfolding occ ◌==◌
part-IsClosed = ((omega arith, omega arith), ((omega arith, omega arith), tt))

part_reordered-IsClosed :
    All
      (λ e. (0 < occ e.from part_reordered.nodes) × (0 < occ e.to part_reordered.nodes))
      part_reordered.edges
unfolding occ ◌==◌
part_reordered-IsClosed =
    ((omega arith, omega arith), ((omega arith, omega arith), ((omega arith, omega arith), tt)))

part_ranked : All (λ e. length e.from < length e.to) part.edges
part_ranked = (omega arith, (omega arith, tt))

part_distinct : (t : Str) → occ t part.nodes ≤ 1
unfolding occ
part_distinct t = ground (arith, ==_iff base t, ==_iff boss t, ==_iff sum t)

part_features : (t : Str) → 0 < occ t part.nodes → has t part.nodes ≡ true
unfolding occ has
part_features t h = ground arith

same_nodes : (t : Str) → occ t part.nodes ≡ occ t part_reordered.nodes
unfolding occ
same_nodes t = ground arith

to_reordered : (e : Edge) → Memᴰ e part.edges → Memᴰ e part_reordered.edges
to_reordered e (Memᴰ.head p) = Memᴰ.tail (Memᴰ.head p)
to_reordered e (Memᴰ.tail (Memᴰ.head p)) = Memᴰ.head p
to_reordered e (Memᴰ.tail (Memᴰ.tail m)) = elim m [ ]

from_reordered : (e : Edge) → Memᴰ e part_reordered.edges → Memᴰ e part.edges
from_reordered e (Memᴰ.head p) = Memᴰ.tail (Memᴰ.head p)
from_reordered e (Memᴰ.tail (Memᴰ.head p)) = Memᴰ.head p
from_reordered e (Memᴰ.tail (Memᴰ.tail (Memᴰ.head p))) = Memᴰ.tail (Memᴰ.head p)
from_reordered e (Memᴰ.tail (Memᴰ.tail (Memᴰ.tail m))) = elim m [ ]

acyclic_ordered_example : (order : List Str) × (topo_sort_deterministic part.nodes part ≡ ok order)
acyclic_ordered_example =
    acyclic_ordered length part.nodes part part-IsClosed part_ranked part_distinct part_features

order_respects_edges_example : has base (base ∷ boss ∷ []) ≡ true
order_respects_edges_example =
    order_respects_edges part.nodes part in_order (base ∷ boss ∷ []) [] sum base_first part_order
      refl (Memᴰ.head refl) refl

order_permutes_nodes_example : occ boss in_order ≡ occ boss part.nodes
order_permutes_nodes_example =
    order_permutes_nodes part.nodes part in_order boss part-IsClosed part_order

order_deterministic_example : in_order ≡ in_order
order_deterministic_example =
    order_deterministic part.nodes part_reordered.nodes part part_reordered in_order in_order
      part-IsClosed part_reordered-IsClosed same_nodes to_reordered from_reordered part_order
      part_reordered_order

queue-kahn_example : (kahn circle).queue ≡ []
queue-kahn_example = queue-kahn circle

below : str_lt sum base ≡ false
unfolding str_lt
below = refl

insert_sorted-eq-insert_example :
    insert_sorted (base ∷ sum ∷ []) boss ≡ insert boss (base ∷ sum ∷ [])
insert_sorted-eq-insert_example =
    insert_sorted-eq-insert (base ∷ sum ∷ []) boss ((below, tt), (tt, tt))
