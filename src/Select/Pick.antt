-- ===== src/Select/Pick.antt =====
-- src/selectors.ts: the selection that is picked is the one without a rival.
use Prim.Native.Nat.{Ordering}
use mathlib.Core.List.{Memᴰ}
use mathlib.Core.Logic.{◌↔◌}
use trueform.Base.{
  ℕ, ◌≤◌, ◌<◌, ◌≡◌, refl, sym, ap, ◌∙◌, Bool, true, false, none, some, List, [], ◌∷◌, All,
  Bool-cases, inl, inr, arith, eqb, keep_if, subst,
}
use trueform.Base.Text.{Str}
use trueform.Select.Context.{Selection}
use trueform.Select.Scores.{positive}
use trueform.Select.Picking.{Scored, sort_scored, unrivalled, pick_by_score}
use trueform.Select.Unique.{rivals, IsDescending, sort-IsDescending, count-sort, mem-sort, sort-mem}

pub mem-keep_if {κ} :
    {A : Type κ} (p : A → Bool) (y : A) (xs : List A)
    → Memᴰ y xs
    → p y ≡ true
    → Memᴰ y (keep_if p xs)
mem-keep_if p y [] m h = m
mem-keep_if p y (x ∷ xs) (Memᴰ.head e) h = rw (ap p (sym e) ∙ h) (Memᴰ.head e)
mem-keep_if p y (x ∷ xs) (Memᴰ.tail m) h = elim (Bool-cases (p x)) [
  | inl keep ↦ rw keep (Memᴰ.tail (mem-keep_if p y xs m h))
  | inr drop ↦ rw drop (mem-keep_if p y xs m h)
]

pub keep_if-mem {κ} :
    {A : Type κ} (p : A → Bool) (y : A) (xs : List A)
    → Memᴰ y (keep_if p xs)
    → Memᴰ y xs × (p y ≡ true)
keep_if-mem p y [] m = elim m [ ]
keep_if-mem {A = A} p y (x ∷ xs) m = elim (Bool-cases (p x)) [
  | inl keep ↦ kept keep (keep_if-mem p y xs) (rw keep at m)
  | inr drop ↦ let (n, h) = keep_if-mem p y xs (rw drop at m) in (Memᴰ.tail n, h)
]
  where
    kept :
        p x ≡ true
        → (Memᴰ y (keep_if p xs) → Memᴰ y xs × (p y ≡ true))
        → Memᴰ y (x ∷ keep_if p xs)
        → Memᴰ y (x ∷ xs) × (p y ≡ true)
    kept keep k (Memᴰ.head e) = (Memᴰ.head e, ap p e ∙ keep)
    kept keep k (Memᴰ.tail n) = let (n', h) = k n in (Memᴰ.tail n', h)

module _ {N : Type 0} where
  rivals_none :
      (m n : ℕ) (es : List (Scored N)) → m < n → All (λ f. f.score ≤ m) es → rivals n es ≡ 0
  rivals_none m n [] p h = refl
  rivals_none m n (e ∷ es) p h = ground (arith, h.0, rivals_none m n es p h.1)

  rivals_self : (e : Scored N) (es : List (Scored N)) → Memᴰ e es → 1 ≤ rivals e.score es
  rivals_self e [] m = elim m [ ]
  rivals_self e (x ∷ es) (Memᴰ.head p) =
      subst (λ (y : Scored N). 1 ≤ rivals e.score (y ∷ es)) p (ground arith)
  rivals_self e (x ∷ es) (Memᴰ.tail m) = ground (arith, rivals_self e es m)

  All-at :
      {m : ℕ} (e : Scored N) (es : List (Scored N))
      → All (λ f. f.score ≤ m) es
      → Memᴰ e es
      → e.score ≤ m
  All-at e [] h n = elim n [ ]
  All-at {m} e (x ∷ es) h (Memᴰ.head p) = subst (λ (y : Scored N). y.score ≤ m) (sym p) h.0
  All-at e (x ∷ es) h (Memᴰ.tail n) = All-at e es h.1 n

  rivals-keep_if :
      (n : ℕ) (es : List (Scored N))
      → 0 < n
      → rivals n (keep_if (λ e. positive e.score) es) ≡ rivals n es
  rivals-keep_if n [] p = refl
  rivals-keep_if n (e ∷ es) p = ground (arith, rivals-keep_if n es p)

  -- An entry whose selection is s and that no other entry reaches.
  abbrev pub Unrivalled : List (Scored N) → Selection N → Type 0
  Unrivalled es s = (e : Scored N) × Memᴰ e es × (e.selection ≡ s) × (rivals e.score es ≡ 1)

  module _ (collate : Str → Str → Ordering) where
    of_unrivalled :
        (es : List (Scored N)) (s : Selection N)
        → IsDescending es
        → unrivalled collate es ≡ some s
        → Unrivalled es s
    of_unrivalled [] s h e = cc
    of_unrivalled (best ∷ []) s h e = (best, Memᴰ.head refl, cc, ground arith)
    of_unrivalled (best ∷ second ∷ rest) s h e = elim (Bool-cases (eqb second.score best.score)) [
      | inl tie ↦ let wrong : none ≡ some s = rw tie at e in cc
      | inr clear ↦
          let same : some best.selection ≡ some s = rw clear at e in
          let below : second.score < best.score = ground (arith, clear, h.0.0) in
          (
            best,
            Memᴰ.head refl,
            cc,
            ground (arith, below, rivals_none second.score best.score rest below h.1.0),
          )
    ]

    unrivalled_of :
        (e : Scored N) (es : List (Scored N))
        → IsDescending es
        → Memᴰ e es
        → rivals e.score es ≡ 1
        → unrivalled collate es ≡ some e.selection
    unrivalled_of e [] h m one = elim m [ ]
    unrivalled_of e (x ∷ []) h (Memᴰ.head p) one = ap (λ (y : Scored N). some y.selection) (sym p)
    unrivalled_of e (x ∷ []) h (Memᴰ.tail m) one = elim m [ ]
    unrivalled_of e (x ∷ second ∷ rest) h (Memᴰ.head p) one =
        let score : e.score ≡ x.score = ap (λ (y : Scored N). y.score) p in
        let differ : eqb second.score x.score ≡ false = ground (arith, one, score) in
        rw differ (ap (λ (y : Scored N). some y.selection) (sym p))
    unrivalled_of e (x ∷ second ∷ rest) h (Memᴰ.tail m) one =
        let low : e.score ≤ x.score = All-at e (second ∷ rest) h.0 m in
        absurd (ground (arith, one, low, rivals_self e (second ∷ rest) m))

    -- The selection that is picked by score is exactly the one whose score is positive and is reached
    -- by no other entry: on a tie at the top none is picked.
    pub picks_the_unrivalled :
        (es : List (Scored N)) (s : Selection N)
        → (pick_by_score collate es ≡ some s) ↔ (
            (e : Scored N) × Memᴰ e es
            × (e.selection ≡ s)
            × (0 < e.score)
            × (rivals e.score es ≡ 1))
    unfolding pick_by_score
    picks_the_unrivalled es s =
        let kept = keep_if (λ e. positive e.score) es in
        let down = sort-IsDescending collate kept in
        (
          λ picked.
              let (e, m, own, one) = of_unrivalled (sort_scored collate kept) s down picked in
              let (n, above) =
                keep_if-mem (λ (f : Scored N). positive f.score) e es (sort-mem collate e kept m) in
              let pos : 0 < e.score = ground (arith, above) in
              (
                e,
                n,
                own,
                pos,
                sym (rivals-keep_if e.score es pos) ∙ sym (count-sort collate _ kept) ∙ one,
              ),
          λ (e, m, own, pos, one).
              unrivalled_of e (sort_scored collate kept) down
                (mem-sort collate e kept
                  (mem-keep_if (λ (f : Scored N). positive f.score) e es m (ground (arith, pos))))
                (count-sort collate _ kept ∙ rivals-keep_if e.score es pos ∙ one)
              ∙ ap some own,
        )
