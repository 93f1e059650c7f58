-- ===== src/Graph/Topo.antt =====
-- src/graph.ts: `topoSortDeterministic` and `insertSorted`.
pub mod Counts
pub mod Degrees
pub mod Keys
pub mod Loop
pub mod Fuel
pub mod Sizes
pub mod Order
pub mod Complete
pub mod Insertion
pub mod Least
mod Tests
use trueform.Base.{
  ℕ, zero, suc, ◌+◌, ◌/◌, ◌≡◌, refl, Bool, true, false, not, ◌&&◌, Option, none, some, List, [],
  ◌∷◌, ◌++◌, foldl, map, length, get_elem?, take, drop, keep_if, eqb, ltb, if◌then◌else◌,
}
use trueform.Base.Text.{Str, codes, ◌==◌, str_lt}
use trueform.Base.JsMap.{JsMap, get, put, keys, has}
use trueform.Base.Int.{ℤ, pos, negsuc, inc, dec}
use trueform.Base.Outcome.{CompileError, cycle, missing_feature, Outcome, ok, err, ◌>>=◌, ◌>>◌}

pub record Edge : Type 0 where
  pub from : Str
  pub to : Str

pub record Graph : Type 0 where
  pub nodes : List Str
  pub edges : List Edge

-- `queue[mid] !== undefined && queue[mid] < value`
abbrev pub goes_right : Option Str → Str → Bool
goes_right none value = false
goes_right (some current) value = str_lt current value

-- The bisection of `insertSorted` on its interval `lo`, `hi`.
unfoldable pub bisect : ℕ → List Str → Str → ℕ → ℕ → ℕ
bisect zero queue value lo hi = lo
bisect (suc fuel) queue value lo hi =
    let mid = (lo + hi) / 2 in
    elim (ltb lo hi) [
      | true ↦
          bisect fuel queue value (if goes_right (get_elem? queue mid) value then mid + 1 else lo)
            (if goes_right (get_elem? queue mid) value then hi else mid)
      | false ↦ lo
    ]

-- queue.splice(lo, 0, value)
unfoldable pub insert_sorted : List Str → Str → List Str
unfolding bisect
insert_sorted queue value =
    let lo = bisect (length queue) queue value 0 (length queue) in
    take lo queue ++ value ∷ drop lo queue

-- `queue.sort()` on strings: the sorted order is unique, so any sorting function is the same.
unfoldable pub insert : Str → List Str → List Str
insert value [] = value ∷ []
insert value (x ∷ xs) =
    let rest = insert value xs in if str_lt x value then x ∷ rest else value ∷ x ∷ xs

unfoldable pub sort : List Str → List Str
unfolding insert
sort [] = []
sort (x ∷ xs) = insert x (sort xs)

-- `indegree.get(id) ?? 0`
abbrev pub degree_or_zero : Option ℤ → ℤ
degree_or_zero none = pos 0
degree_or_zero (some d) = d

-- `outgoing.get(id) ?? []`
abbrev pub targets_or_nil : Option (List Str) → List Str
targets_or_nil none = []
targets_or_nil (some l) = l

-- `indegree.get(id) === 0`
abbrev pub is_root : Option ℤ → Bool
is_root (some (pos zero)) = true
is_root _ = false

pub record Tally : Type 0 where
  pub indegree : JsMap ℤ
  pub outgoing : JsMap (List Str)

unfoldable pub tally_edge : Tally → Edge → Tally
tally_edge t e = record {
  indegree = put e.to (inc (degree_or_zero (get e.to t.indegree))) t.indegree;
  outgoing = put e.from (targets_or_nil (get e.from t.outgoing) ++ e.to ∷ []) t.outgoing;
}

unfoldable pub zero_degrees : List Str → JsMap ℤ
zero_degrees = foldl (λ m node. put node (pos 0) m) []

unfoldable pub tally : Graph → Tally
unfolding tally_edge zero_degrees
tally g = foldl tally_edge (record { indegree = zero_degrees g.nodes; outgoing = [] }) g.edges

-- The ids of degree 0, in the order of the map.
unfoldable pub roots : JsMap ℤ → List Str
roots [] = []
roots ((id, deg) ∷ m) = let rest = roots m in if is_root (some deg) then id ∷ rest else rest

-- The variables of the loop.
pub record Kahn : Type 0 where
  pub indegree : JsMap ℤ
  pub queue : List Str
  pub result : List Str

unfoldable pub relax_one : Kahn → Str → Kahn
relax_one s next =
    let indegree = put next (dec (degree_or_zero (get next s.indegree))) s.indegree in
    record s {
      indegree = indegree;
      queue = if is_root (get next indegree) then insert_sorted s.queue next else s.queue;
    }

-- for (const next of neighbors)
unfoldable pub relax : Kahn → List Str → Kahn
relax s [] = s
relax s (next ∷ rest) = relax (relax_one s next) rest

unfoldable pub visit : JsMap (List Str) → Str → List Str → Kahn → Kahn
visit outgoing id rest s =
    relax (record s { queue = rest; result = s.result ++ id ∷ [] })
      (targets_or_nil (get id outgoing))

-- while (queue.length > 0)
unfoldable pub drain : ℕ → JsMap (List Str) → Kahn → Kahn
drain zero outgoing s = s
drain (suc fuel) outgoing s = elim s.queue [
  | [] ↦ s
  | id ∷ rest ↦ drain fuel outgoing (visit outgoing id rest s)
]

abbrev pub start : JsMap ℤ → Kahn
start indegree = record { indegree = indegree; queue = sort (roots indegree); result = [] }

-- Each id is taken at most once, so the number of ids is fuel enough.
unfoldable pub kahn : Graph → Kahn
kahn g = let t = tally g in drain (length t.indegree) t.outgoing (start t.indegree)

-- The first id of the result that is no feature.
unfoldable pub check_features : List Str → List Str → Outcome (Unit {0})
check_features ids [] = ok tt
check_features ids (id ∷ rest) =
    let later = check_features ids rest in if has id ids then later else err (missing_feature id)

-- `feature_ids` are the keys of `byId`.
unfoldable pub topo_sort_deterministic : List Str → Graph → Outcome (List Str)
topo_sort_deterministic feature_ids g =
    let result = (kahn g).result in
    if eqb (length result) (length g.nodes)
    then (check_features feature_ids result >> ok result)
    else err (cycle (keep_if (λ n. not (has n result)) g.nodes))
