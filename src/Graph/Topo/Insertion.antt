-- ===== src/Graph/Topo/Insertion.antt =====
-- src/graph.ts: the binary insertion of `insertSorted`.
use trueform.Base.{
  ℕ, zero, suc, ◌+◌, ◌/◌, ◌≤◌, ◌<◌, ◌≡◌, refl, true, false, List, [], ◌∷◌, ◌++◌, arith,
  if◌then◌else◌, length, take, drop, get_elem?, All, Bool-cases, inl, inr, lt→ltb,
}
use native.Mathlib.Decide.{dec_lt}
use trueform.Base.Text.{Str, str_lt, str_lt_trans, str_lt_total, str_lt_irrefl}
use trueform.Graph.Topo.{goes_right, bisect, insert_sorted, insert, sort}

-- No later string is below an earlier one.
abbrev pub IsSorted : List Str → Type 0
IsSorted [] = Unit
IsSorted (x ∷ xs) = All (λ y. str_lt y x ≡ false) xs × IsSorted xs

-- x ≤ y < v gives x < v.
pub str_lt_of_le_lt : (x y v : Str) → str_lt y x ≡ false → str_lt y v ≡ true → str_lt x v ≡ true
str_lt_of_le_lt x y v le lt = elim (Bool-cases (str_lt x v)) [
  | inl h ↦ h
  | inr h ↦ elim (Bool-cases (str_lt x y)) [
    | inl below ↦ str_lt_trans x y v below lt
    | inr same ↦ ground (arith, str_lt_total x y same le)
  ]
]

All-goes_right :
    (x v : Str) (xs : List Str) (j : ℕ)
    → All (λ y. str_lt y x ≡ false) xs
    → goes_right (get_elem? xs j) v ≡ true
    → str_lt x v ≡ true
All-goes_right x v [] j h g = cc
All-goes_right x v (y ∷ xs) zero h g = str_lt_of_le_lt x y v h.0 g
All-goes_right x v (y ∷ xs) (suc j) h g = All-goes_right x v xs j h.1 g

-- In a sorted queue the places that go right stand first.
goes_right-antitone :
    (v : Str) (xs : List Str) (i j : ℕ)
    → IsSorted xs
    → i ≤ j
    → goes_right (get_elem? xs j) v ≡ true
    → goes_right (get_elem? xs i) v ≡ true
goes_right-antitone v [] i j s le g = cc
goes_right-antitone v (x ∷ xs) zero zero s le g = g
goes_right-antitone v (x ∷ xs) zero (suc j) s le g = All-goes_right x v xs j s.0 g
goes_right-antitone v (x ∷ xs) (suc i) zero s le g = absurd (omega arith)
goes_right-antitone v (x ∷ xs) (suc i) (suc j) s le g =
    goes_right-antitone v xs i j s.1 (omega arith) g

-- All before `r` go right, and none from `r` on.
record Cut (xs : List Str) (v : Str) (lo hi : ℕ) : Type 0 where
  before : (i : ℕ) → i < lo → goes_right (get_elem? xs i) v ≡ true
  after : (i : ℕ) → hi ≤ i → goes_right (get_elem? xs i) v ≡ false

bisect_step :
    (fuel : ℕ) (xs : List Str) (v : Str) (lo hi : ℕ)
    → lo < hi
    → bisect (suc fuel) xs v lo hi ≡ (
        if goes_right (get_elem? xs ((lo + hi) / 2)) v
        then bisect fuel xs v ((lo + hi) / 2 + 1) hi
        else bisect fuel xs v lo ((lo + hi) / 2))
unfolding bisect
bisect_step fuel xs v lo hi h = ground (arith, lt→ltb lo hi h)

bisect_done :
    (fuel : ℕ) (xs : List Str) (v : Str) (lo hi : ℕ) → hi ≤ lo → bisect fuel xs v lo hi ≡ lo
unfolding bisect
bisect_done zero xs v lo hi h = refl
bisect_done (suc fuel) xs v lo hi h = ground arith

Cut-right :
    (xs : List Str) (v : Str) (lo hi mid : ℕ)
    → IsSorted xs
    → goes_right (get_elem? xs mid) v ≡ true
    → Cut xs v lo hi
    → Cut xs v (mid + 1) hi
Cut-right xs v lo hi mid s g c = record {
  before = λ i h. goes_right-antitone v xs i mid s (omega arith) g;
  after = c.after;
}

Cut-left :
    (xs : List Str) (v : Str) (lo hi mid : ℕ)
    → IsSorted xs
    → goes_right (get_elem? xs mid) v ≡ false
    → Cut xs v lo hi
    → Cut xs v lo mid
Cut-left xs v lo hi mid s g c = record {
  before = c.before;
  after = λ i h. elim (Bool-cases (goes_right (get_elem? xs i) v)) [
    | inl r ↦ ground (arith, goes_right-antitone v xs mid i s h r)
    | inr l ↦ l
  ];
}

bisect-Cut :
    (fuel : ℕ) (xs : List Str) (v : Str) (lo hi : ℕ)
    → IsSorted xs
    → lo ≤ hi
    → hi ≤ lo + fuel
    → Cut xs v lo hi
    → Cut xs v (bisect fuel xs v lo hi) (bisect fuel xs v lo hi)
bisect-Cut zero xs v lo hi s le f c =
    rw (bisect_done zero xs v lo hi (omega arith))
      (record { before = c.before; after = λ i h. c.after i (omega arith) })
bisect-Cut (suc fuel) xs v lo hi s le f c = elim (dec_lt lo hi) [
  | yes more ↦
      let mid = (lo + hi) / 2 in
      elim (Bool-cases (goes_right (get_elem? xs mid) v)) [
        | inl g ↦
            rw (bisect_step fuel xs v lo hi more, g)
              (bisect-Cut fuel xs v (mid + 1) hi s (omega arith) (omega arith)
                (Cut-right xs v lo hi mid s g c))
        | inr g ↦
            rw (bisect_step fuel xs v lo hi more, g)
              (bisect-Cut fuel xs v lo mid s (omega arith) (omega arith)
                (Cut-left xs v lo hi mid s g c))
      ]
  | no done ↦
      rw (bisect_done (suc fuel) xs v lo hi (omega arith))
        (record { before = c.before; after = λ i h. c.after i (omega arith) })
]

-- Splicing at the cut is the insertion that walks from the front.
splice-eq-insert :
    (xs : List Str) (v : Str) (r : ℕ) → Cut xs v r r → take r xs ++ v ∷ drop r xs ≡ insert v xs
unfolding insert
splice-eq-insert [] v zero c = refl
splice-eq-insert [] v (suc r) c = refl
splice-eq-insert (x ∷ xs) v zero c = ground (arith, c.after 0)
splice-eq-insert (x ∷ xs) v (suc r) c =
    let shorter : Cut xs v r r = record {
      before = λ i h. c.before (suc i) (omega arith);
      after = λ i h. c.after (suc i) (omega arith);
    } in
    ground (arith, c.before 0, splice-eq-insert xs v r shorter)

out_of_range :
    (xs : List Str) (v : Str) (i : ℕ) → length xs ≤ i → goes_right (get_elem? xs i) v ≡ false
out_of_range [] v i h = refl
out_of_range (x ∷ xs) v zero h = absurd (omega arith)
out_of_range (x ∷ xs) v (suc i) h = out_of_range xs v i (omega arith)

-- On a sorted queue the binary insertion is the insertion that walks from the front, before the
-- first string that is not below the new one.
pub insert_sorted-eq-insert :
    (queue : List Str) (value : Str)
    → IsSorted queue
    → insert_sorted queue value ≡ insert value queue
unfolding insert_sorted
insert_sorted-eq-insert queue value s = splice-eq-insert queue value _ (
    bisect-Cut (length queue) queue value 0 (length queue) s (omega arith) (omega arith) (record {
      before = λ i h. absurd (omega arith);
      after = λ i h. out_of_range queue value i h;
    }))

All-insert :
    (x v : Str) (xs : List Str)
    → All (λ y. str_lt y x ≡ false) xs
    → str_lt v x ≡ false
    → All (λ y. str_lt y x ≡ false) (insert v xs)
unfolding insert
All-insert x v [] h le = (le, tt)
All-insert x v (y ∷ xs) h le = elim (Bool-cases (str_lt y v)) [
  | inl b ↦ rw b (h.0, All-insert x v xs h.1 le)
  | inr b ↦ rw b (le, h)
]

-- x ≤ y and all of `xs` at least y gives all of `xs` at least x.
All-le_trans :
    (x y : Str) (xs : List Str)
    → str_lt y x ≡ false
    → All (λ z. str_lt z y ≡ false) xs
    → All (λ z. str_lt z x ≡ false) xs
All-le_trans x y [] le h = tt
All-le_trans x y (z ∷ xs) le h = (
  elim (Bool-cases (str_lt z x)) [
    | inl b ↦ ground (arith, str_lt_of_le_lt y z x h.0 b)
    | inr b ↦ b
  ],
  All-le_trans x y xs le h.1,
)

insert-IsSorted : (v : Str) (xs : List Str) → IsSorted xs → IsSorted (insert v xs)
unfolding insert
insert-IsSorted v [] s = (tt, tt)
insert-IsSorted v (x ∷ xs) s = elim (Bool-cases (str_lt x v)) [
  | inl b ↦
      let not_back : str_lt v x ≡ false = elim (Bool-cases (str_lt v x)) [
        | inl c ↦ ground (arith, str_lt_trans x v x b c, str_lt_irrefl x)
        | inr c ↦ c
      ] in
      rw b (All-insert x v xs s.0 not_back, insert-IsSorted v xs s.1)
  | inr b ↦ rw b ((b, All-le_trans v x xs b s.0), s)
]

pub sort-IsSorted : (xs : List Str) → IsSorted (sort xs)
unfolding sort
sort-IsSorted [] = tt
sort-IsSorted (x ∷ xs) = insert-IsSorted x (sort xs) (sort-IsSorted xs)

-- The queue stays sorted.
pub insert_sorted-IsSorted :
    (queue : List Str) (value : Str) → IsSorted queue → IsSorted (insert_sorted queue value)
insert_sorted-IsSorted queue value s =
    rw (insert_sorted-eq-insert queue value s) (insert-IsSorted value queue s)
