-- ===== src/Select/Surely.antt =====
-- src/selectors.ts: what holds of the result of a call, where it does not throw `selector_ambiguous`.
use trueform.Base.{◌≢◌, Bool, List, [], ◌∷◌, All, Bool-cases, inl, inr, keep_if}
use trueform.Base.Outcome.{Outcome, ok, err, ◌>>=◌, selector_ambiguous}

-- The call returns a value with P, or throws an error other than `selector_ambiguous`.
abbrev pub Surely {ℓ} : {A : Type ℓ} → (A → Type 0) → Outcome A → Type 0
Surely P (ok a) = P a
Surely P (err selector_ambiguous) = ⊥
Surely P (err e) = Unit

pub Surely->>= {ℓ μ} :
    {A : Type ℓ} {B : Type μ} (P : A → Type 0) (Q : B → Type 0) (m : Outcome A)
    (next : A → Outcome B)
    → Surely P m
    → ((a : A) → P a → Surely Q (next a))
    → Surely Q (m >>= next)
Surely->>= P Q (ok a) next h k = k a h
Surely->>= P Q (err selector_ambiguous) next h k = absurd h
Surely->>= P Q _ next h k = h

pub Surely-map {ℓ} :
    {A : Type ℓ} (P Q : A → Type 0) (m : Outcome A)
    → ((a : A) → P a → Q a)
    → Surely P m
    → Surely Q m
Surely-map P Q (ok a) f h = f a h
Surely-map P Q (err selector_ambiguous) f h = absurd h
Surely-map P Q _ f h = h

pub Surely-not_ambiguous {ℓ} :
    {A : Type ℓ} (P : A → Type 0) (m : Outcome A) → Surely P m → m ≢ err selector_ambiguous
Surely-not_ambiguous P (ok a) h e = cc
Surely-not_ambiguous P (err selector_ambiguous) h e = absurd h
Surely-not_ambiguous P _ h e = cc

pub All-keep_if {ℓ κ} :
    {A : Type ℓ} (P : A → Type κ) (p : A → Bool) (xs : List A) → All P xs → All P (keep_if p xs)
All-keep_if P p [] h = tt
All-keep_if P p (x ∷ xs) h = elim (Bool-cases (p x)) [
  | inl keep ↦ rw keep (h.0, All-keep_if P p xs h.1)
  | inr drop ↦ rw drop (All-keep_if P p xs h.1)
]
