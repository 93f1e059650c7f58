-- ===== src/Base/JsMap.antt =====
-- JavaScript's `Map` and `Set` with string keys: entries in the order of their first insertion.
use mathlib.Core.Path.{◌≡◌, refl}
use mathlib.Core.Bool.{Bool, true, false, ◌||◌}
use mathlib.Core.Option.{Option, none, some}
use mathlib.Core.List.{List, [], ◌∷◌, ◌++◌, map}
use native.Mathlib.Omega.{arith}
use mathlib.Core.Logic.{inl, inr}
use trueform.Base.Tests.{Bool-cases, if◌then◌else◌}
use trueform.Base.Text.{Str, ◌==◌, ==_iff}

abbrev pub JsMap {ℓ} : Type ℓ → Type ℓ
JsMap V = List (Str × V)

module _ {ℓ} {V : Type ℓ} where
  -- m.get(k)
  unfoldable pub get : Str → JsMap V → Option V
  get k [] = none
  get k ((j, v) ∷ m) = if j == k then some v else get k m

  -- m.set(k, v): a key that is there keeps its place.
  unfoldable pub put : Str → V → JsMap V → JsMap V
  put k v [] = (k, v) ∷ []
  put k v ((j, w) ∷ m) = if j == k then (j, v) ∷ m else (j, w) ∷ put k v m

  abbrev pub keys : JsMap V → List Str
  keys m = map (λ e. e.0) m

  pub get-put :
      (k j : Str) (v : V) (m : JsMap V) → get j (put k v m) ≡ (if k == j then some v else get j m)
  unfolding get put
  get-put k j v [] = refl
  get-put k j v ((i, w) ∷ m) = ground (arith, ==_iff k j, ==_iff i k, ==_iff i j, get-put k j v m)

-- set.has(k) for a `Set` given by its elements, and array.includes(k).
unfoldable pub has : Str → List Str → Bool
has k [] = false
has k (x ∷ xs) = let rest = has k xs in if x == k then true else rest

-- set.add(k)
unfoldable pub add : Str → List Str → List Str
add k xs = if has k xs then xs else xs ++ k ∷ []

pub has-append : (k : Str) (xs ys : List Str) → has k (xs ++ ys) ≡ (has k xs || has k ys)
unfolding has
has-append k [] ys = refl
has-append k (x ∷ xs) ys = ground (arith, has-append k xs ys)

pub has-add : (k j : Str) (xs : List Str) → has j (add k xs) ≡ (if k == j then true else has j xs)
unfolding add has
has-add k j xs = ground (arith, has-append j xs (k ∷ []), ==_iff k j)

pub has-snoc :
    (k x : Str) (xs : List Str) → has k (xs ++ x ∷ []) ≡ (if x == k then true else has k xs)
unfolding has
has-snoc k x [] = refl
has-snoc k x (y ∷ xs) = ground (arith, has-snoc k x xs)

pub get-has {ℓ} :
    {V : Type ℓ} (id : Str) (m : JsMap V) {x : V} → get id m ≡ some x → has id (keys m) ≡ true
unfolding get has
get-has id [] e = cc
get-has id ((k, v) ∷ m) e = elim (Bool-cases (k == id)) [
  | inl same ↦ rw same refl
  | inr other ↦ rw other (get-has id m (rw other at e))
]
