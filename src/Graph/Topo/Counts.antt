-- ===== src/Graph/Topo/Counts.antt =====
-- Occurrences in lists of ids, and the edges that an id still waits for.
use trueform.Base.{
  ℕ, suc, ◌+◌, ◌≤◌, ◌<◌, ◌≡◌, refl, true, false, List, [], ◌∷◌, ◌++◌, take, drop, arith,
  if◌then◌else◌, length, take-append-drop,
}
use trueform.Base.Text.{Str, ◌==◌, ==_iff, ==-self}
use trueform.Base.JsMap.{has, has-snoc}
use trueform.Graph.Topo.{Edge, insert, sort, insert_sorted, bisect}

-- How often `t` stands in a list.
unfoldable pub occ : Str → List Str → ℕ
occ t [] = 0
occ t (x ∷ xs) = let rest = occ t xs in if x == t then suc rest else rest

pub occ-append : (t : Str) (xs ys : List Str) → occ t (xs ++ ys) ≡ occ t xs + occ t ys
unfolding occ
occ-append t [] ys = omega arith
occ-append t (x ∷ xs) ys = ground (arith, occ-append t xs ys)

pub occ_pos_iff-has :
    (t : Str) (xs : List Str) → (has t xs ≡ true → 0 < occ t xs) × (has t xs ≡ false → occ t xs ≡ 0)
unfolding occ has
occ_pos_iff-has t [] = ground arith
occ_pos_iff-has t (x ∷ xs) = ground (arith, occ_pos_iff-has t xs)

pub occ_self : (x : Str) (xs : List Str) → occ x (x ∷ xs) ≡ suc (occ x xs)
unfolding occ
occ_self x xs = rw (==-self x)

pub occ-insert : (t v : Str) (xs : List Str) → occ t (insert v xs) ≡ occ t (v ∷ xs)
unfolding occ insert
occ-insert t v [] = refl
occ-insert t v (x ∷ xs) = ground (arith, occ-insert t v xs)

pub occ-sort : (t : Str) (xs : List Str) → occ t (sort xs) ≡ occ t xs
unfolding occ sort
occ-sort t [] = refl
occ-sort t (x ∷ xs) = ground (arith, occ-sort t xs, occ-insert t x (sort xs))

-- Splicing at any place adds one occurrence.
pub occ-insert_sorted :
    (t v : Str) (queue : List Str) → occ t (insert_sorted queue v) ≡ occ t (v ∷ queue)
unfolding occ insert_sorted
occ-insert_sorted t v queue =
    let lo = bisect (length queue) queue v 0 (length queue) in
    ground (
      arith,
      occ-append t (take lo queue) (v ∷ drop lo queue),
      occ-append t (take lo queue) (drop lo queue),
      take-append-drop lo queue,
    )

-- The edges to `t` whose source has not been emitted.
unfoldable pub waiting : List Str → List Edge → Str → ℕ
waiting seen [] t = 0
waiting seen (e ∷ es) t =
    let rest = waiting seen es t in
    if e.to == t then (if has e.from seen then rest else suc rest) else rest

-- The targets of the edges from `id`, in the order of the edges.
unfoldable pub targets : Str → List Edge → List Str
targets id [] = []
targets id (e ∷ es) = let rest = targets id es in if e.from == id then e.to ∷ rest else rest

-- Emitting an id releases its own edges, and no others.
pub waiting-emit :
    (seen : List Str) (id t : Str) (es : List Edge)
    → has id seen ≡ false
    → waiting seen es t ≡ waiting (seen ++ id ∷ []) es t + occ t (targets id es)
unfolding waiting targets occ
waiting-emit seen id t [] h = omega arith
waiting-emit seen id t (e ∷ es) h = ground (
  arith,
  has-snoc e.from id seen,
  ==_iff e.from id,
  ==_iff id e.from,
  waiting-emit seen id t es h,
)

pub waiting-nil : (es : List Edge) (t : Str) (m : Str) → occ t (targets m es) ≤ waiting [] es t
unfolding waiting targets occ has
waiting-nil [] t m = omega arith
waiting-nil (e ∷ es) t m = ground (arith, waiting-nil es t m)
