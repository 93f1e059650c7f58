-- ===== src/Graph/Topo/Least.antt =====
-- src/graph.ts: the order of `topoSortDeterministic` is determined by the nodes and the edges,
-- whatever the order in which the features are listed.
use trueform.Base.{
  ◌<◌, ◌≡◌, refl, sym, ap, ◌∙◌, true, false, List, [], ◌∷◌, ◌++◌, none, arith, length, append-nil,
  append_assoc, subst, All,
}
use mathlib.Core.List.{Memᴰ}
use native.Mathlib.Decide.{dec_lt}
use trueform.Base.Text.{Str, ==_iff, str_lt, str_lt_total, str_lt_irrefl}
use trueform.Base.JsMap.{get, has}
use trueform.Base.Outcome.{ok}
use trueform.Graph.Topo.{
  Edge, Graph, Kahn, tally, relax_one, relax, visit, kahn, topo_sort_deterministic, roots,
}
use trueform.Graph.Topo.Counts.{occ, occ_self, waiting, waiting-nil, targets}
use trueform.Graph.Topo.Degrees.{outs-tally}
use trueform.Graph.Topo.Keys.{is_key, tally-is_key, get-tally}
use trueform.Graph.Topo.Loop.{Inv, visit-Inv, start-Inv}
use trueform.Graph.Topo.Fuel.{drain_ind}
use trueform.Graph.Topo.Order.{kahn_of_ok, result-relax, has_of_waiting}
use trueform.Graph.Topo.Sizes.{length-le_of_occ}
use trueform.Graph.Topo.Insertion.{IsSorted, insert_sorted-IsSorted, sort-IsSorted}
use trueform.Graph.Topo.Complete.{IsClosed, waiting-le_of_closed, is_key-relax, get-relax}

-- After `seen`, `x` is the least node that waits for nothing.
pub record IsNext (g : Graph) (seen : List Str) (x : Str) : Type 0 where
  pub node : 0 < occ x g.nodes
  pub fresh : occ x seen ≡ 0
  pub ready : waiting seen g.edges x ≡ 0
  pub least :
      (y : Str)
      → 0 < occ y g.nodes
      → occ y seen ≡ 0
      → waiting seen g.edges y ≡ 0
      → str_lt y x ≡ false

abbrev pub IsGreedy : Graph → List Str → List Str → Type 0
IsGreedy g seen [] = Unit
IsGreedy g seen (x ∷ xs) = IsNext g seen x × IsGreedy g (seen ++ x ∷ []) xs

IsGreedy-snoc :
    (g : Graph) (seen xs : List Str) (y : Str)
    → IsGreedy g seen xs
    → IsNext g (seen ++ xs) y
    → IsGreedy g seen (xs ++ y ∷ [])
IsGreedy-snoc g seen [] y h n = (rw append-nil at n, tt)
IsGreedy-snoc g seen (x ∷ xs) y h n =
    (h.0, IsGreedy-snoc g (seen ++ x ∷ []) xs y h.1 (rw append_assoc n))

All-least :
    (x y : Str) (xs : List Str)
    → All (λ z. str_lt z x ≡ false) xs
    → 0 < occ y xs
    → str_lt y x ≡ false
unfolding occ
All-least x y [] h o = absurd (omega arith)
All-least x y (z ∷ xs) h o = ground (arith, All-least x y xs h.1, ==_iff z y)

record GreedyInv (g : Graph) (s : Kahn) : Type 0 where
  inv : Inv g.edges [] s
  sorted : IsSorted s.queue
  keyed : (t : Str) → 0 < occ t g.nodes → is_key (get t s.indegree) ≡ true
  unkeyed : (t : Str) → occ t g.nodes ≡ 0 → get t s.indegree ≡ none
  greedy : IsGreedy g [] s.result

relax-IsSorted : (ns : List Str) (s : Kahn) → IsSorted s.queue → IsSorted (relax s ns).queue
unfolding relax relax_one
relax-IsSorted [] s h = h
relax-IsSorted (n ∷ ns) s h =
    relax-IsSorted ns (relax_one s n) (ground (arith, insert_sorted-IsSorted s.queue n h))

module _ (g : Graph) (id : Str) (rest : List Str) (s : Kahn) (q : s.queue ≡ id ∷ rest)
    (h : GreedyInv g s) where
  queued-IsNext : IsNext g s.result id
  unfolding occ
  queued-IsNext = record {
    node = elim (dec_lt 0 (occ id g.nodes)) [
      | yes node ↦ node
      | no outside ↦
          let k = h.unkeyed id (omega arith) in
          absurd (ground (arith, k, h.inv.placed id, occ_self id rest))
    ];
    fresh = ground (arith, h.inv.placed id, occ_self id rest);
    ready = ground (arith, h.inv.placed id, h.inv.degrees id, occ_self id rest);
    least = λ y node fresh ready.
        let sorted : IsSorted (id ∷ rest) = subst IsSorted q h.sorted in
        let root : occ y s.queue ≡ 1 =
          ground (arith, h.keyed y node, h.inv.placed y, h.inv.degrees y) in
        ground
          (arith, root, ap (occ y) q, ==_iff id y, str_lt_irrefl id, All-least id y rest sorted.0);
  }

  visit-GreedyInv : IsClosed g → GreedyInv g (visit (tally g).outgoing id rest s)
  visit-GreedyInv closed =
      let taken : Kahn = record s { queue = rest; result = s.result ++ id ∷ [] } in
      let sorted : IsSorted (id ∷ rest) = subst IsSorted q h.sorted in
      record {
        inv = visit-Inv g id rest s q h.inv;
        sorted = unfold visit in relax-IsSorted _ taken sorted.1;
        keyed = λ t node. unfold visit in is_key-relax t _ taken (h.keyed t node);
        unkeyed = λ t outside.
            let idle = waiting-le_of_closed t g.nodes g.edges closed outside in
            unfold visit in
            rw outs-tally (
              get-relax t (targets id g.edges) taken (omega (arith, waiting-nil g.edges t id))
              ∙ h.unkeyed t outside);
        greedy =
            unfold visit in rw result-relax (IsGreedy-snoc g [] s.result id h.greedy queued-IsNext);
      }

kahn-IsGreedy : (g : Graph) → IsClosed g → IsGreedy g [] (kahn g).result
unfolding kahn
kahn-IsGreedy g closed =
    (drain_ind (GreedyInv g) (tally g).outgoing
      (λ id rest s q h. visit-GreedyInv g id rest s q h closed) _ _
      (record {
        inv = start-Inv g;
        sorted = sort-IsSorted (roots (tally g).indegree);
        keyed = tally-is_key g;
        unkeyed = λ t outside.
            get-tally g t (waiting-le_of_closed t g.nodes g.edges closed outside) outside;
        greedy = tt;
      })).greedy

-- The two graphs have the same nodes, and the same ids are ready at any time.
record SameReady (g g' : Graph) : Type 0 where
  nodes : (t : Str) → occ t g.nodes ≡ occ t g'.nodes
  ready : (seen : List Str) (t : Str) → waiting seen g.edges t ≡ 0 → waiting seen g'.edges t ≡ 0

next-eq :
    (g g' : Graph) (seen : List Str) (x y : Str)
    → SameReady g g'
    → SameReady g' g
    → IsNext g seen x
    → IsNext g' seen y
    → x ≡ y
next-eq g g' seen x y there back a b =
    str_lt_total x y
      (b.least x (omega (arith, there.nodes x, a.node)) a.fresh (there.ready seen x a.ready))
      (a.least y (omega (arith, back.nodes y, b.node)) b.fresh (back.ready seen y b.ready))

greedy-eq :
    (g g' : Graph) (seen xs ys : List Str)
    → SameReady g g'
    → SameReady g' g
    → length xs ≡ length ys
    → IsGreedy g seen xs
    → IsGreedy g' seen ys
    → xs ≡ ys
greedy-eq g g' seen [] [] there back l h k = refl
greedy-eq g g' seen [] (y ∷ ys) there back l h k = absurd (omega arith)
greedy-eq g g' seen (x ∷ xs) [] there back l h k = absurd (omega arith)
greedy-eq g g' seen (x ∷ xs) (y ∷ ys) there back l h k =
    let same = next-eq g g' seen x y there back h.0 k.0 in
    let k' : IsGreedy g' (seen ++ x ∷ []) ys = rw same k.1 in
    cc (same, greedy-eq g g' (seen ++ x ∷ []) xs ys there back (omega arith) h.1 k')

waiting_of_sources :
    (seen : List Str) (es : List Edge) (t : Str)
    → ((e : Edge) → Memᴰ e es → e.to ≡ t → has e.from seen ≡ true)
    → waiting seen es t ≡ 0
unfolding waiting
waiting_of_sources seen [] t h = refl
waiting_of_sources seen (e ∷ es) t h = ground (
  arith,
  h e (Memᴰ.head refl),
  ==_iff e.to t,
  waiting_of_sources seen es t (λ d m. h d (Memᴰ.tail m)),
)

ready_of_subset :
    (es es' : List Edge)
    → ((e : Edge) → Memᴰ e es' → Memᴰ e es)
    → (seen : List Str) (t : Str) → waiting seen es t ≡ 0
    → waiting seen es' t ≡ 0
ready_of_subset es es' sub seen t w =
    waiting_of_sources seen es' t λ e m p. has_of_waiting seen es e (sub e m) (rw p w)

-- The order is deterministic: two graphs over the same nodes and with the same set of edges, in
-- whatever order and however often they list them, have the same order where both have one.
pub order_deterministic :
    (ids ids' : List Str) (g g' : Graph) (order order' : List Str)
    → IsClosed g
    → IsClosed g'
    → ((t : Str) → occ t g.nodes ≡ occ t g'.nodes)
    → ((e : Edge) → Memᴰ e g.edges → Memᴰ e g'.edges)
    → ((e : Edge) → Memᴰ e g'.edges → Memᴰ e g.edges)
    → topo_sort_deterministic ids g ≡ ok order
    → topo_sort_deterministic ids' g' ≡ ok order'
    → order ≡ order'
order_deterministic ids ids' g g' order order' closed closed' nodes sub sup h h' =
    let (same, long) = kahn_of_ok ids g order h in
    let (same', long') = kahn_of_ok ids' g' order' h' in
    let le = length-le_of_occ g.nodes g'.nodes (λ t. omega (arith, nodes t)) in
    let ge = length-le_of_occ g'.nodes g.nodes (λ t. omega (arith, nodes t)) in
    greedy-eq g g' [] order order'
      (record { nodes = nodes; ready = ready_of_subset g.edges g'.edges sup })
      (record { nodes = λ t. sym (nodes t); ready = ready_of_subset g'.edges g.edges sub })
      (omega (arith, long, long', le, ge)) (rw same (kahn-IsGreedy g closed))
      (rw same' (kahn-IsGreedy g' closed'))
