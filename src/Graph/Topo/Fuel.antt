-- ===== src/Graph/Topo/Fuel.antt =====
-- src/graph.ts: the loop of `topoSortDeterministic` ends on every graph.
use trueform.Base.{
  ℕ, zero, suc, ◌+◌, ◌≤◌, ◌<◌, ◌≡◌, refl, ap, List, [], ◌∷◌, ◌++◌, Option, some, arith, inl, inr,
  List-cases, length, length-append, take, drop, take-append-drop,
}
use trueform.Base.Text.{Str, ==_iff}
use trueform.Base.JsMap.{JsMap, get, put, get-put}
use trueform.Base.Int.{ℤ, pos, dec}
use trueform.Graph.Topo.{
  Graph, Kahn, tally, roots, relax_one, relax, visit, drain, start, kahn, insert, insert_sorted,
  bisect, sort, targets_or_nil, degree_or_zero,
}

abbrev positive : Option ℤ → ℕ
positive (some (pos (suc n))) = 1
positive _ = 0

positives : JsMap ℤ → ℕ
positives [] = 0
positives ((j, d) ∷ m) = positive (some d) + positives m

positives-put :
    (k : Str) (d : ℤ) (m : JsMap ℤ)
    → positives (put k d m) + positive (get k m) ≡ positives m + positive (some d)
unfolding positives put get
positives-put k d [] = ground arith
positives-put k d ((j, c) ∷ m) = ground (arith, positives-put k d m)

length-insert_sorted :
    (queue : List Str) (v : Str) → length (insert_sorted queue v) ≡ suc (length queue)
unfolding insert_sorted
length-insert_sorted queue v =
    let lo = bisect (length queue) queue v 0 (length queue) in
    ground (
      arith,
      length-append (take lo queue) (v ∷ drop lo queue),
      length-append (take lo queue) (drop lo queue),
      take-append-drop lo queue,
    )

length-insert : (v : Str) (xs : List Str) → length (insert v xs) ≡ suc (length xs)
unfolding insert
length-insert v [] = refl
length-insert v (x ∷ xs) = ground (arith, length-insert v xs)

length-sort : (xs : List Str) → length (sort xs) ≡ length xs
unfolding sort
length-sort [] = refl
length-sort (x ∷ xs) = ground (arith, length-sort xs, length-insert x (sort xs))

-- The ids that are queued or still can be.
measure : Kahn → ℕ
measure s = length s.queue + positives s.indegree

measure-relax_one : (s : Kahn) (n : Str) → measure (relax_one s n) ≤ measure s
unfolding measure relax_one
measure-relax_one s n =
    let d = dec (degree_or_zero (get n s.indegree)) in
    ground (
      arith,
      positives-put n d s.indegree,
      get-put n n d s.indegree,
      ==_iff n n,
      length-insert_sorted s.queue n,
    )

measure-relax : (ns : List Str) (s : Kahn) → measure (relax s ns) ≤ measure s
unfolding relax
measure-relax [] s = omega arith
measure-relax (n ∷ ns) s = omega (arith, measure-relax ns (relax_one s n), measure-relax_one s n)

measure-visit :
    (outgoing : JsMap (List Str)) (id : Str) (rest : List Str) (s : Kahn)
    → s.queue ≡ id ∷ rest
    → measure (visit outgoing id rest s) < measure s
unfolding visit measure
measure-visit outgoing id rest s q =
    let taken : Kahn = record s { queue = rest; result = s.result ++ id ∷ [] } in
    let h = measure-relax (targets_or_nil (get id outgoing)) taken in ground (arith, h)

drain-nil :
    (outgoing : JsMap (List Str)) (fuel : ℕ) (s : Kahn) → s.queue ≡ [] → drain fuel outgoing s ≡ s
unfolding drain
drain-nil outgoing zero s q = refl
drain-nil outgoing (suc fuel) s q =
    ap
      (λ (l : List Str). elim l as (λ _. Kahn) [
        | [] ↦ s
        | id ∷ rest ↦ drain fuel outgoing (visit outgoing id rest s)
      ])
      q

drain-cons :
    (outgoing : JsMap (List Str)) (fuel : ℕ) (id : Str) (rest : List Str) (s : Kahn)
    → s.queue ≡ id ∷ rest
    → drain (suc fuel) outgoing s ≡ drain fuel outgoing (visit outgoing id rest s)
unfolding drain
drain-cons outgoing fuel id rest s q =
    ap
      (λ (l : List Str). elim l as (λ _. Kahn) [
        | [] ↦ s
        | id ∷ rest ↦ drain fuel outgoing (visit outgoing id rest s)
      ])
      q

-- What a loop invariant gives of the end of the loop.
pub drain_ind :
    (P : Kahn → Type 0) (outgoing : JsMap (List Str))
    → ((id : Str) (rest : List Str) (s : Kahn)
        → s.queue ≡ id ∷ rest
        → P s
        → P (visit outgoing id rest s))
    → (fuel : ℕ) (s : Kahn) → P s
    → P (drain fuel outgoing s)
drain_ind P outgoing keep zero s h = unfold drain in h
drain_ind P outgoing keep (suc fuel) s h = elim (List-cases s.queue) [
  | inl q ↦ rw (drain-nil outgoing (suc fuel) s q) h
  | inr c ↦ rw (drain-cons outgoing fuel c.head c.tail s c.split) (
      drain_ind P outgoing keep fuel (visit outgoing c.head c.tail s)
        (keep c.head c.tail s c.split h))
]

drain_empties :
    (outgoing : JsMap (List Str)) (fuel : ℕ) (s : Kahn)
    → measure s ≤ fuel
    → (drain fuel outgoing s).queue ≡ []
drain_empties outgoing zero s h = elim (List-cases s.queue) [
  | inl q ↦ rw (drain-nil outgoing zero s q) q
  | inr c ↦ absurd (omega (arith, measure-visit outgoing c.head c.tail s c.split))
]
drain_empties outgoing (suc fuel) s h = elim (List-cases s.queue) [
  | inl q ↦ rw (drain-nil outgoing (suc fuel) s q) q
  | inr c ↦ rw (drain-cons outgoing fuel c.head c.tail s c.split) (
      drain_empties outgoing fuel (visit outgoing c.head c.tail s)
        (omega (arith, measure-visit outgoing c.head c.tail s c.split)))
]

length-roots : (m : JsMap ℤ) → length (roots m) + positives m ≤ length m
unfolding roots positives
length-roots [] = omega arith
length-roots ((j, d) ∷ m) = ground (arith, length-roots m)

-- On every graph, whatever its edges, the loop of `topoSortDeterministic` ends: when it has run for
-- as many rounds as there are ids, its queue is empty.
pub queue-kahn : (g : Graph) → (kahn g).queue ≡ []
unfolding kahn
queue-kahn g =
    drain_empties (tally g).outgoing (length (tally g).indegree) (start (tally g).indegree) (
      unfold measure in
      omega (arith, length-roots (tally g).indegree, length-sort (roots (tally g).indegree)))
