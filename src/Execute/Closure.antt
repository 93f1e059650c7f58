-- ===== src/Execute/Closure.antt =====
-- src/executor.ts: `downstreamClosure`, by a worklist.
pub mod Reach
use trueform.Base.{
  ℕ, zero, suc, ◌+◌, ◌≡◌, refl, Bool, true, false, not, ◌||◌, Option, none, some, List, [], ◌∷◌,
  ◌++◌, foldl, keep_if, length, if◌then◌else◌, arith,
}
use trueform.Base.Text.{Str}
use trueform.Base.JsMap.{JsMap, get, put, has, add}
use trueform.Graph.Topo.{Edge, Graph, targets_or_nil}

unfoldable pub adjacency : List Edge → JsMap (List Str)
adjacency = foldl (λ m (e : Edge). put e.from (targets_or_nil (get e.from m) ++ e.to ∷ []) m) []

-- `!id` of a string
abbrev pub is_empty : Str → Bool
is_empty [] = true
is_empty (x ∷ xs) = false

-- while (queue.length > 0)
unfoldable pub expand : ℕ → JsMap (List Str) → List Str → List Str → List Str
expand zero adjacent out queue = out
expand (suc fuel) adjacent out [] = out
expand (suc fuel) adjacent out (id ∷ queue) = elim (is_empty id || has id out) [
  | true ↦ expand fuel adjacent out queue
  | false ↦
      let out' = add id out in
      let next = targets_or_nil (get id adjacent) in
      expand fuel adjacent out' (queue ++ keep_if (λ child. not (has child out')) next)
]

-- Every changed id and every edge puts at most one id into the queue.
unfoldable pub downstream_closure : List Str → Graph → List Str
downstream_closure changed g =
    expand (length changed + length g.edges) (adjacency g.edges) [] changed
