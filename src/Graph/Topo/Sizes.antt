-- ===== src/Graph/Topo/Sizes.antt =====
-- Lists compared by their occurrences.
use trueform.Base.{suc, ◌≤◌, ◌<◌, ◌≡◌, List, [], ◌∷◌, arith, if◌then◌else◌, length}
use trueform.Base.Text.{Str, ◌==◌, ==_iff}
use trueform.Graph.Topo.Counts.{occ, occ_self}

remove_one : Str → List Str → List Str
remove_one v [] = []
remove_one v (x ∷ xs) = let rest = remove_one v xs in if x == v then xs else x ∷ rest

length-remove_one :
    (v : Str) (xs : List Str) → 0 < occ v xs → suc (length (remove_one v xs)) ≡ length xs
unfolding occ remove_one
length-remove_one v [] h = absurd (omega arith)
length-remove_one v (x ∷ xs) h = ground (arith, length-remove_one v xs)

occ-remove_one : (t v : Str) (xs : List Str) → 0 < occ v xs → occ t (v ∷ remove_one v xs) ≡ occ t xs
unfolding occ remove_one
occ-remove_one t v [] h = absurd (omega arith)
occ-remove_one t v (x ∷ xs) h =
    ground (arith, occ-remove_one t v xs, ==_iff x v, ==_iff v t, ==_iff x t)

occ_head : (x : Str) (xs ys : List Str) → ((t : Str) → occ t (x ∷ xs) ≤ occ t ys) → 0 < occ x ys
occ_head x xs ys h = omega (arith, h x, occ_self x xs)

occ_tail :
    (x : Str) (xs ys : List Str)
    → ((t : Str) → occ t (x ∷ xs) ≤ occ t ys)
    → (t : Str) → occ t xs ≤ occ t (remove_one x ys)
unfolding occ
occ_tail x xs ys h t = ground (arith, h t, occ-remove_one t x ys (occ_head x xs ys h))

-- What occurs no more often is no longer.
pub length-le_of_occ :
    (xs ys : List Str) → ((t : Str) → occ t xs ≤ occ t ys) → length xs ≤ length ys
length-le_of_occ [] ys h = omega arith
length-le_of_occ (x ∷ xs) ys h = omega (
  arith,
  length-le_of_occ xs (remove_one x ys) (occ_tail x xs ys h),
  length-remove_one x ys (occ_head x xs ys h),
)

-- And of the same length only if it occurs as often.
pub occ-le_of_length :
    (xs ys : List Str)
    → ((t : Str) → occ t xs ≤ occ t ys)
    → length ys ≤ length xs
    → (t : Str) → occ t ys ≤ occ t xs
unfolding occ
occ-le_of_length [] [] h l t = omega arith
occ-le_of_length [] (y ∷ ys) h l t = absurd (omega arith)
occ-le_of_length (x ∷ xs) ys h l t =
    let pos = occ_head x xs ys h in
    let ih =
      occ-le_of_length xs (remove_one x ys) (occ_tail x xs ys h)
        (omega (arith, length-remove_one x ys pos)) t in
    ground (arith, ih, occ-remove_one t x ys pos)
