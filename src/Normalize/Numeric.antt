-- ===== src/Normalize/Numeric.antt =====
-- src/ir_normalize.ts: the scalars that are left by a normalization are numbers.
pub mod Scalars
pub mod Paths
pub mod Profiles
pub mod Entities
pub mod Sketches
pub mod Bodies
pub mod Solids
pub mod Faces
pub mod Details
pub mod Features
pub mod Kept
use trueform.Base.{◌≡◌, Option, none, some, List, [], ◌∷◌, subst, All}
use trueform.Base.Outcome.{ok, err}
use trueform.Params.Expressions.{Run, done, out_of_fuel, ◌>>>◌}
use trueform.Normalize.Scalars.{optional, each}

-- The result, when there is one.
unfoldable pub Yields : {A : Type 0} → (A → Type 0) → Run A → Type 0
Yields P (done (ok a)) = P a
Yields P (done (err e)) = Unit
Yields P out_of_fuel = Unit

abbrev pub Each : {A : Type 0} → (A → Type 0) → Option A → Type 0
Each P none = Unit
Each P (some a) = P a

pub Yields->>> :
    {A B : Type 0} (P : A → Type 0) (Q : B → Type 0) (m : Run A) (f : A → Run B)
    → Yields P m
    → ((a : A) → P a → Yields Q (f a))
    → Yields Q (m >>> f)
unfolding Yields
Yields->>> P Q (done (ok a)) f h k = k a h
Yields->>> P Q (done (err e)) f h k = tt
Yields->>> P Q out_of_fuel f h k = tt

pub Yields-ok :
    {A : Type 0} (P : A → Type 0) (m : Run A) (a : A) → Yields P m → m ≡ done (ok a) → P a
unfolding Yields
Yields-ok P m a h e = subst (Yields P) e h

pub optional-Yields :
    {A B : Type 0} (P : B → Type 0) (f : A → Run B)
    → ((a : A) → Yields P (f a))
    → (o : Option A) → Yields (Each P) (optional f o)
unfolding Yields optional
optional-Yields P f h none = tt
optional-Yields P f h (some a) = Yields->>> P (Each P) (f a) _ (h a) (λ b b_h. b_h)

pub each-Yields :
    {A B : Type 0} (P : B → Type 0) (f : A → Run B)
    → ((a : A) → Yields P (f a))
    → (xs : List A) → Yields (All P) (each f xs)
unfolding Yields each
each-Yields P f h [] = tt
each-Yields P f h (x ∷ xs) = Yields->>> P (All P) (f x) _ (h x) (λ b b_h.
    Yields->>> (All P) (All P) (each f xs) _ (each-Yields P f h xs) (λ bs bs_h. (b_h, bs_h)))
