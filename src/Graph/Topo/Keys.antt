-- ===== src/Graph/Topo/Keys.antt =====
-- src/graph.ts: the keys of the degrees that `topoSortDeterministic` counts.
use trueform.Base.{
  ◌+◌, ◌≤◌, ◌<◌, ◌≡◌, refl, ◌∙◌, Bool, true, false, List, [], ◌∷◌, Option, none, some, foldl, arith,
  if◌then◌else◌, inl, inr, ◌⊎◌,
}
use trueform.Base.Text.{Str, ◌==◌, ==_iff}
use trueform.Base.JsMap.{JsMap, get, put, get-put, has, keys}
use trueform.Base.Int.{ℤ, pos, inc}
use trueform.Graph.Topo.{Edge, Graph, Tally, tally, tally_edge, zero_degrees, is_root, roots}
use trueform.Graph.Topo.Counts.{occ, occ_pos_iff-has, waiting}
use trueform.Graph.Topo.Degrees.{degree}

-- The keys of a map stand in it once.
abbrev pub IsDistinct : JsMap ℤ → Type 0
IsDistinct m = (t : Str) → occ t (keys m) ≤ 1

occ-keys-put :
    (t k : Str) (v : ℤ) (m : JsMap ℤ)
    → occ t (keys (put k v m))
      ≡ (if has k (keys m) then occ t (keys m) else occ t (keys m) + occ t (k ∷ []))
unfolding put has occ
occ-keys-put t k v [] = ground arith
occ-keys-put t k v ((j, w) ∷ m) = ground (arith, occ-keys-put t k v m)

put-IsDistinct : (k : Str) (v : ℤ) (m : JsMap ℤ) → IsDistinct m → IsDistinct (put k v m)
unfolding occ
put-IsDistinct k v m h t =
    ground (arith, occ-keys-put t k v m, h t, occ_pos_iff-has k (keys m), ==_iff k t)

tally_edges-IsDistinct :
    (es : List Edge) (s : Tally)
    → IsDistinct s.indegree
    → IsDistinct (foldl tally_edge s es).indegree
tally_edges-IsDistinct [] s h = h
tally_edges-IsDistinct (e ∷ es) s h =
    tally_edges-IsDistinct es (tally_edge s e)
      (unfold tally_edge in put-IsDistinct e.to _ s.indegree h)

zero_degrees-IsDistinct :
    (nodes : List Str) (m : JsMap ℤ)
    → IsDistinct m
    → IsDistinct (foldl (λ m node. put node (pos 0) m) m nodes)
zero_degrees-IsDistinct [] m h = h
zero_degrees-IsDistinct (n ∷ nodes) m h =
    zero_degrees-IsDistinct nodes (put n (pos 0) m) (put-IsDistinct n (pos 0) m h)

pub tally-IsDistinct : (g : Graph) → IsDistinct (tally g).indegree
unfolding tally zero_degrees occ
tally-IsDistinct g =
    tally_edges-IsDistinct g.edges _ (zero_degrees-IsDistinct g.nodes [] (λ t. omega arith))

get-none : (t : Str) (m : JsMap ℤ) → occ t (keys m) ≡ 0 → get t m ≡ none
unfolding occ get
get-none t [] h = refl
get-none t ((j, d) ∷ m) h = ground (arith, get-none t m)

-- The ids of degree 0, each once.
pub occ-roots :
    (t : Str) (m : JsMap ℤ)
    → occ t (keys m) ≤ 1
    → occ t (roots m) ≡ (if is_root (get t m) then 1 else 0)
unfolding occ roots get
occ-roots t [] h = refl
occ-roots t ((j, d) ∷ m) h = ground (arith, occ-roots t m, get-none t m)

-- An id of positive degree, or a node, is a key of the map.
abbrev pub is_key : Option ℤ → Bool
is_key none = false
is_key (some _) = true

tally_edges-is_key :
    (t : Str) (es : List Edge) (s : Tally)
    → is_key (get t s.indegree) ≡ true
    → is_key (get t (foldl tally_edge s es).indegree) ≡ true
tally_edges-is_key t [] s h = h
tally_edges-is_key t (e ∷ es) s h =
    tally_edges-is_key t es (tally_edge s e) (
      unfold tally_edge in ground (arith, get-put e.to t (inc (degree e.to s.indegree)) s.indegree))

zero_degrees-is_key :
    (t : Str) (nodes : List Str) (m : JsMap ℤ)
    → (is_key (get t m) ≡ true) ⊎ (0 < occ t nodes)
    → is_key (get t (foldl (λ m node. put node (pos 0) m) m nodes)) ≡ true
unfolding occ
zero_degrees-is_key t [] m (inl h) = h
zero_degrees-is_key t [] m (inr h) = absurd (omega arith)
zero_degrees-is_key t (n ∷ nodes) m h =
    zero_degrees-is_key t nodes (put n (pos 0) m) (ground (arith, get-put n t (pos 0) m))

pub tally-is_key :
    (g : Graph) (t : Str) → 0 < occ t g.nodes → is_key (get t (tally g).indegree) ≡ true
unfolding tally zero_degrees
tally-is_key g t h = tally_edges-is_key t g.edges _ (zero_degrees-is_key t g.nodes [] (inr h))

get-tally_edge :
    (t : Str) (s : Tally) (e : Edge)
    → get t (tally_edge s e).indegree
      ≡ (if e.to == t then some (inc (degree e.to s.indegree)) else get t s.indegree)
unfolding tally_edge
get-tally_edge t s e = get-put e.to t (inc (degree e.to s.indegree)) s.indegree

-- An id that is no node and no target is no key.
get-tally_edges :
    (t : Str) (es : List Edge) (s : Tally)
    → waiting [] es t ≡ 0
    → get t (foldl tally_edge s es).indegree ≡ get t s.indegree
unfolding waiting has
get-tally_edges t [] s h = refl
get-tally_edges t (e ∷ es) s h =
    ground (arith, get-tally_edges t es (tally_edge s e), get-tally_edge t s e)

get-zero_degrees :
    (t : Str) (nodes : List Str) (m : JsMap ℤ)
    → occ t nodes ≡ 0
    → get t (foldl (λ m node. put node (pos 0) m) m nodes) ≡ get t m
unfolding occ
get-zero_degrees t [] m h = refl
get-zero_degrees t (n ∷ nodes) m h =
    ground (arith, get-zero_degrees t nodes (put n (pos 0) m), get-put n t (pos 0) m)

pub get-tally :
    (g : Graph) (t : Str)
    → waiting [] g.edges t ≡ 0
    → occ t g.nodes ≡ 0
    → get t (tally g).indegree ≡ none
unfolding tally zero_degrees get
get-tally g t w o =
    get-tally_edges t g.edges (record { indegree = zero_degrees g.nodes; outgoing = [] }) w
    ∙ get-zero_degrees t g.nodes [] o
