-- ===== src/Graph/Topo/Loop.antt =====
-- src/graph.ts: the invariant of the loop of `topoSortDeterministic`.
use trueform.Base.{◌+◌, ◌≡◌, List, [], ◌∷◌, ◌++◌, arith, if◌then◌else◌}
use trueform.Base.Text.{Str, ==_iff}
use trueform.Base.JsMap.{get, get-put}
use trueform.Base.Int.{pos, dec}
use trueform.Graph.Topo.{Edge, Graph, Kahn, tally, roots, is_root, relax_one, relax, visit, start}
use trueform.Graph.Topo.Counts.{
  occ, occ-append, occ_self, occ-sort, occ-insert_sorted, occ_pos_iff-has, waiting, waiting-emit,
  targets,
}
use trueform.Graph.Topo.Degrees.{degree, degree-tally, outs-tally}
use trueform.Graph.Topo.Keys.{tally-IsDistinct, occ-roots}

-- While the neighbours `ns` of the last emitted id are still to come: a degree counts the edges
-- whose source has not been emitted, and exactly the ids of degree 0 are emitted or queued, once.
pub record Inv (es : List Edge) (ns : List Str) (s : Kahn) : Type 0 where
  pub degrees : (t : Str) → degree t s.indegree ≡ pos (waiting s.result es t + occ t ns)
  pub placed :
      (t : Str) → occ t s.result + occ t s.queue ≡ (if is_root (get t s.indegree) then 1 else 0)

relax_one-Inv :
    (es : List Edge) (n : Str) (ns : List Str) (s : Kahn)
    → Inv es (n ∷ ns) s
    → Inv es ns (relax_one s n)
unfolding relax_one occ
relax_one-Inv es n ns s h =
    let d = dec (degree n s.indegree) in
    record {
      degrees = λ t.
          ground
            (arith, h.degrees t, h.degrees n, get-put n t d s.indegree, ==_iff n t, ==_iff n n);
      placed = λ t. ground (
        arith,
        h.degrees t,
        h.degrees n,
        h.placed t,
        h.placed n,
        get-put n t d s.indegree,
        get-put n n d s.indegree,
        ==_iff n t,
        ==_iff n n,
        occ-insert_sorted t n s.queue,
      );
    }

pub relax-Inv : (es : List Edge) (ns : List Str) (s : Kahn) → Inv es ns s → Inv es [] (relax s ns)
unfolding relax
relax-Inv es [] s h = h
relax-Inv es (n ∷ ns) s h = relax-Inv es ns (relax_one s n) (relax_one-Inv es n ns s h)

-- Taking the first id of the queue.
take-Inv :
    (es : List Edge) (id : Str) (rest : List Str) (s : Kahn)
    → s.queue ≡ id ∷ rest
    → Inv es [] s
    → Inv es (targets id es) (record s { queue = rest; result = s.result ++ id ∷ [] })
unfolding occ
take-Inv es id rest s q h = record {
  degrees = λ t. ground (
    arith,
    h.degrees t,
    h.placed id,
    occ_pos_iff-has id s.result,
    occ_self id rest,
    waiting-emit s.result id t es,
  );
  placed = λ t. ground (arith, h.placed t, occ-append t s.result (id ∷ []));
}

pub visit-Inv :
    (g : Graph) (id : Str) (rest : List Str) (s : Kahn)
    → s.queue ≡ id ∷ rest
    → Inv g.edges [] s
    → Inv g.edges [] (visit (tally g).outgoing id rest s)
unfolding visit
visit-Inv g id rest s q h =
    rw outs-tally (relax-Inv g.edges (targets id g.edges) _ (take-Inv g.edges id rest s q h))

pub start-Inv : (g : Graph) → Inv g.edges [] (start (tally g).indegree)
unfolding occ
start-Inv g = record {
  degrees = λ t. ground (arith, degree-tally g t);
  placed = λ t. ground (
    arith,
    occ-sort t (roots (tally g).indegree),
    occ-roots t (tally g).indegree,
    tally-IsDistinct g t,
  );
}
