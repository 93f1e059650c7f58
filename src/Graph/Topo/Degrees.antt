-- ===== src/Graph/Topo/Degrees.antt =====
-- src/graph.ts: what `topoSortDeterministic` counts before its loop.
use trueform.Base.{
  ℕ, suc, ◌+◌, ◌≡◌, refl, sym, List, [], ◌∷◌, ◌++◌, foldl, arith, if◌then◌else◌, Bool-cases, inl,
  inr, append-nil, append_assoc,
}
use trueform.Base.Text.{Str, ◌==◌, ==_iff}
use trueform.Base.JsMap.{JsMap, get, put, get-put, has}
use trueform.Base.Int.{ℤ, pos, inc}
use trueform.Graph.Topo.{
  Edge, Graph, Tally, tally, tally_edge, zero_degrees, degree_or_zero, targets_or_nil,
}
use trueform.Graph.Topo.Counts.{waiting, targets}

-- The degree that the map shows for an id.
abbrev pub degree : Str → JsMap ℤ → ℤ
degree t m = degree_or_zero (get t m)

abbrev outs : Tally → Str → List Str
outs t id = targets_or_nil (get id t.outgoing)

degree-tally_edge :
    (t : Str) (s : Tally) (e : Edge)
    → degree t (tally_edge s e).indegree
      ≡ (if e.to == t then inc (degree t s.indegree) else degree t s.indegree)
unfolding tally_edge
degree-tally_edge t s e =
    ground (arith, ==_iff e.to t, get-put e.to t (inc (degree e.to s.indegree)) s.indegree)

outs-tally_edge :
    (id : Str) (s : Tally) (e : Edge)
    → outs (tally_edge s e) id ≡ (if e.from == id then outs s id ++ e.to ∷ [] else outs s id)
unfolding tally_edge
outs-tally_edge id s e =
    ground (arith, ==_iff e.from id, get-put e.from id (outs s e.from ++ e.to ∷ []) s.outgoing)

-- After the loop over the edges a degree is the number of the edges to its id.
degree-tally_edges :
    (t : Str) (es : List Edge) (s : Tally) (n : ℕ)
    → degree t s.indegree ≡ pos n
    → degree t (foldl tally_edge s es).indegree ≡ pos (n + waiting [] es t)
unfolding waiting has
degree-tally_edges t [] s n h = ground arith
degree-tally_edges t (e ∷ es) s n h = elim (Bool-cases (e.to == t)) [
  | inl same ↦
      ground (arith, degree-tally_edge t s e, degree-tally_edges t es (tally_edge s e) (suc n))
  | inr other ↦ ground (arith, degree-tally_edge t s e, degree-tally_edges t es (tally_edge s e) n)
]

-- The targets of an id stand in the order of the edges.
outs-tally_edges :
    (id : Str) (es : List Edge) (s : Tally)
    → outs (foldl tally_edge s es) id ≡ outs s id ++ targets id es
unfolding targets
outs-tally_edges id [] s = sym (append-nil _)
outs-tally_edges id (e ∷ es) s = elim (Bool-cases (e.from == id)) [
  | inl same ↦
      rw (same, outs-tally_edges id es (tally_edge s e), outs-tally_edge, same, append_assoc)
  | inr other ↦ rw (other, outs-tally_edges id es (tally_edge s e), outs-tally_edge, other)
]

degree-zero_degrees :
    (t : Str) (nodes : List Str) (m : JsMap ℤ)
    → degree t m ≡ pos 0
    → degree t (foldl (λ m node. put node (pos 0) m) m nodes) ≡ pos 0
degree-zero_degrees t [] m h = h
degree-zero_degrees t (n ∷ nodes) m h =
    degree-zero_degrees t nodes (put n (pos 0) m) (ground (arith, get-put n t (pos 0) m))

pub degree-tally : (g : Graph) (t : Str) → degree t (tally g).indegree ≡ pos (waiting [] g.edges t)
unfolding tally get
degree-tally g t =
    let h =
      degree-tally_edges t g.edges (record { indegree = zero_degrees g.nodes; outgoing = [] }) 0
        (degree-zero_degrees t g.nodes [] refl) in
    ground (arith, h)

pub outs-tally : (g : Graph) (id : Str) → outs (tally g) id ≡ targets id g.edges
unfolding tally get
outs-tally g id =
    outs-tally_edges id g.edges (record { indegree = zero_degrees g.nodes; outgoing = [] })
