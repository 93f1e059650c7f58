-- ===== src/Graph/Topo/Order.antt =====
-- src/graph.ts: an order that `topoSortDeterministic` returns.
use trueform.Base.{
  ◌≡◌, refl, sym, ◌∙◌, true, List, [], ◌∷◌, ◌++◌, arith, length, append-nil, append_assoc, subst,
}
use mathlib.Core.List.{Memᴰ}
use trueform.Base.Text.{Str, ==_iff}
use trueform.Base.JsMap.{has}
use trueform.Base.Outcome.{ok}
use trueform.Graph.Topo.{
  Edge, Graph, Kahn, tally, relax_one, relax, visit, kahn, topo_sort_deterministic,
}
use trueform.Graph.Topo.Counts.{occ, occ_self, waiting}
use trueform.Graph.Topo.Loop.{Inv, visit-Inv, start-Inv}
use trueform.Graph.Topo.Fuel.{drain_ind}

-- Every id waits for nothing when its turn comes.
abbrev pub IsOrdered : List Edge → List Str → List Str → Type 0
IsOrdered es seen [] = Unit
IsOrdered es seen (x ∷ xs) = (waiting seen es x ≡ 0) × IsOrdered es (seen ++ x ∷ []) xs

IsOrdered-snoc :
    (es : List Edge) (seen xs : List Str) (y : Str)
    → IsOrdered es seen xs
    → waiting (seen ++ xs) es y ≡ 0
    → IsOrdered es seen (xs ++ y ∷ [])
IsOrdered-snoc es seen [] y h w = (rw append-nil at w, tt)
IsOrdered-snoc es seen (x ∷ xs) y h w =
    (h.0, IsOrdered-snoc es (seen ++ x ∷ []) xs y h.1 (rw append_assoc w))

pub result-relax : (ns : List Str) (s : Kahn) → (relax s ns).result ≡ s.result
unfolding relax relax_one
result-relax [] s = refl
result-relax (n ∷ ns) s = result-relax ns (relax_one s n)

pub record OrderedInv (g : Graph) (s : Kahn) : Type 0 where
  pub inv : Inv g.edges [] s
  pub ordered : IsOrdered g.edges [] s.result

waiting_of_queued :
    (es : List Edge) (id : Str) (rest : List Str) (s : Kahn)
    → s.queue ≡ id ∷ rest
    → Inv es [] s
    → waiting s.result es id ≡ 0
unfolding occ
waiting_of_queued es id rest s q h = ground (arith, h.degrees id, h.placed id, occ_self id rest)

visit-OrderedInv :
    (g : Graph) (id : Str) (rest : List Str) (s : Kahn)
    → s.queue ≡ id ∷ rest
    → OrderedInv g s
    → OrderedInv g (visit (tally g).outgoing id rest s)
visit-OrderedInv g id rest s q h = record {
  inv = visit-Inv g id rest s q h.inv;
  ordered =
      unfold visit in
      rw result-relax (
        IsOrdered-snoc g.edges [] s.result id h.ordered
          (waiting_of_queued g.edges id rest s q h.inv));
}

pub kahn-OrderedInv : (g : Graph) → OrderedInv g (kahn g)
unfolding kahn
kahn-OrderedInv g =
    drain_ind (OrderedInv g) (tally g).outgoing (visit-OrderedInv g) _ _
      (record { inv = start-Inv g; ordered = tt })

pub kahn_of_ok :
    (ids : List Str) (g : Graph) (order : List Str)
    → topo_sort_deterministic ids g ≡ ok order
    → (order ≡ (kahn g).result) × (length order ≡ length g.nodes)
unfolding topo_sort_deterministic
kahn_of_ok ids g order h = ground arith

IsOrdered-split :
    (es : List Edge) (seen before after : List Str) (x : Str)
    → IsOrdered es seen (before ++ x ∷ after)
    → waiting (seen ++ before) es x ≡ 0
IsOrdered-split es seen [] after x h = rw append-nil h.0
IsOrdered-split es seen (y ∷ before) after x h =
    rw (append_assoc seen (y ∷ []) before) at
      (IsOrdered-split es (seen ++ y ∷ []) before after x h.1)

pub has_of_waiting :
    (seen : List Str) (es : List Edge) (e : Edge)
    → Memᴰ e es
    → waiting seen es e.to ≡ 0
    → has e.from seen ≡ true
unfolding waiting
has_of_waiting seen [] e m h = elim m [ ]
has_of_waiting seen (d ∷ es) e (Memᴰ.head p) h = ground (arith, p, ==_iff d.to e.to)
has_of_waiting seen (d ∷ es) e (Memᴰ.tail m) h = ground (arith, has_of_waiting seen es e m)

-- In an order that is returned, the source of every edge to an id stands before the id.
pub order_respects_edges :
    (ids : List Str) (g : Graph) (order before after : List Str) (x : Str) (e : Edge)
    → topo_sort_deterministic ids g ≡ ok order
    → order ≡ before ++ x ∷ after
    → Memᴰ e g.edges
    → e.to ≡ x
    → has e.from before ≡ true
order_respects_edges ids g order before after x e h split m to_x =
    has_of_waiting before g.edges e m (
      rw to_x (
        IsOrdered-split g.edges [] before after x (
          subst (IsOrdered g.edges []) (sym (kahn_of_ok ids g order h).0 ∙ split)
            (kahn-OrderedInv g).ordered)))
