-- ===== src/Select/Unique.antt =====
-- src/selectors.ts: the selection that is picked by its score has no rival.
use Prim.Native.Nat.{Ordering}
use mathlib.Core.List.{Memᴰ}
use trueform.Base.{
  ℕ, ◌≤◌, ◌≡◌, refl, Bool, List, [], ◌∷◌, All, All-map, Bool-cases, inl, inr, arith, leb, count_if,
}
use trueform.Base.Text.{Str}
use trueform.Select.Picking.{Scored, belongs_after, insert_scored, sort_scored}

-- How many entries score at least n.
abbrev pub rivals : {N : Type 0} → ℕ → List (Scored N) → ℕ
rivals n es = count_if (λ e. leb n e.score) es

-- No later entry scores higher.
abbrev pub IsDescending : {N : Type 0} → List (Scored N) → Type 0
IsDescending [] = Unit
IsDescending (e ∷ es) = All (λ f. f.score ≤ e.score) es × IsDescending es

module _ {N : Type 0} (collate : Str → Str → Ordering) where
  insert-All_le :
      (n : ℕ) (e : Scored N) (es : List (Scored N))
      → e.score ≤ n
      → All (λ f. f.score ≤ n) es
      → All (λ f. f.score ≤ n) (insert_scored collate e es)
  unfolding insert_scored
  insert-All_le n e [] p h = (p, tt)
  insert-All_le n e (x ∷ es) p h = elim (Bool-cases (belongs_after collate e x)) [
    | inl later ↦ rw later (h.0, insert-All_le n e es p h.1)
    | inr here ↦ rw here (p, h)
  ]

  insert-IsDescending :
      (e : Scored N) (es : List (Scored N))
      → IsDescending es
      → IsDescending (insert_scored collate e es)
  unfolding insert_scored
  insert-IsDescending e [] h = (tt, tt)
  insert-IsDescending e (x ∷ es) h = elim (Bool-cases (belongs_after collate e x)) [
    | inl later ↦
        rw later
          (insert-All_le x.score e es (ground (arith, later)) h.0, insert-IsDescending e es h.1)
    | inr here ↦
        let low : x.score ≤ e.score = ground (arith, here) in
        rw here ((low, All-map es (λ f p. omega arith) h.0), h)
  ]

  pub sort-IsDescending : (es : List (Scored N)) → IsDescending (sort_scored collate es)
  unfolding sort_scored
  sort-IsDescending [] = tt
  sort-IsDescending (e ∷ es) = insert-IsDescending e (sort_scored collate es) (sort-IsDescending es)

  count-insert :
      (p : Scored N → Bool) (e : Scored N) (es : List (Scored N))
      → count_if p (insert_scored collate e es) ≡ count_if p (e ∷ es)
  unfolding insert_scored
  count-insert p e [] = refl
  count-insert p e (x ∷ es) = ground (arith, count-insert p e es)

  pub count-sort :
      (p : Scored N → Bool) (es : List (Scored N))
      → count_if p (sort_scored collate es) ≡ count_if p es
  unfolding sort_scored
  count-sort p [] = refl
  count-sort p (e ∷ es) = ground (arith, count-insert p e (sort_scored collate es), count-sort p es)

  mem-insert :
      (y e : Scored N) (es : List (Scored N))
      → Memᴰ y (e ∷ es)
      → Memᴰ y (insert_scored collate e es)
  unfolding insert_scored
  mem-insert y e [] m = m
  mem-insert y e (x ∷ es) m = elim (Bool-cases (belongs_after collate e x)) [
    | inl later ↦ rw later (moved m (mem-insert y e es))
    | inr here ↦ rw here m
  ]
    where
      moved :
          {zs : List (Scored N)}
          → Memᴰ y (e ∷ x ∷ es)
          → (Memᴰ y (e ∷ es) → Memᴰ y zs)
          → Memᴰ y (x ∷ zs)
      moved (Memᴰ.head p) k = Memᴰ.tail (k (Memᴰ.head p))
      moved (Memᴰ.tail (Memᴰ.head p)) k = Memᴰ.head p
      moved (Memᴰ.tail (Memᴰ.tail n)) k = Memᴰ.tail (k (Memᴰ.tail n))

  pub mem-sort : (y : Scored N) (es : List (Scored N)) → Memᴰ y es → Memᴰ y (sort_scored collate es)
  unfolding sort_scored
  mem-sort y [] m = m
  mem-sort y (e ∷ es) (Memᴰ.head p) = mem-insert y e _ (Memᴰ.head p)
  mem-sort y (e ∷ es) (Memᴰ.tail m) = mem-insert y e _ (Memᴰ.tail (mem-sort y es m))

  insert-mem :
      (y e : Scored N) (es : List (Scored N))
      → Memᴰ y (insert_scored collate e es)
      → Memᴰ y (e ∷ es)
  unfolding insert_scored
  insert-mem y e [] m = m
  insert-mem y e (x ∷ es) m = elim (Bool-cases (belongs_after collate e x)) [
    | inl later ↦ back (insert-mem y e es) (rw later at m)
    | inr here ↦ rw here at m
  ]
    where
      back :
          (Memᴰ y (insert_scored collate e es) → Memᴰ y (e ∷ es))
          → Memᴰ y (x ∷ insert_scored collate e es)
          → Memᴰ y (e ∷ x ∷ es)
      back k (Memᴰ.head p) = Memᴰ.tail (Memᴰ.head p)
      back k (Memᴰ.tail n) = around (k n)
        where
          around : Memᴰ y (e ∷ es) → Memᴰ y (e ∷ x ∷ es)
          around (Memᴰ.head p) = Memᴰ.head p
          around (Memᴰ.tail q) = Memᴰ.tail (Memᴰ.tail q)

  pub sort-mem : (y : Scored N) (es : List (Scored N)) → Memᴰ y (sort_scored collate es) → Memᴰ y es
  unfolding sort_scored
  sort-mem y [] m = m
  sort-mem y (e ∷ es) m = onward (insert-mem y e (sort_scored collate es) m) (sort-mem y es)
    where
      onward :
          Memᴰ y (e ∷ sort_scored collate es)
          → (Memᴰ y (sort_scored collate es) → Memᴰ y es)
          → Memᴰ y (e ∷ es)
      onward (Memᴰ.head p) k = Memᴰ.head p
      onward (Memᴰ.tail n) k = Memᴰ.tail (k n)
