-- ===== src/Select/Matched.antt =====
-- src/selectors.ts: the candidates that match a selector.

use trueform.Base.{
  ◌≡◌, inl, inr, refl, Bool, true, false, Option, some, List, [], ◌∷◌, All, if◌then◌else◌,
  Bool-cases,
}
use trueform.Base.Text.{Str, codes, ◌==◌, ==_iff}
use trueform.Base.JsMap.{get}
use trueform.Base.Value.{Value, bool, str}
use trueform.Base.Outcome.{Outcome, ok, ◌>>=◌}
use trueform.Ir.Selectors.{Predicate, pred_normal, pred_planar, pred_created_by, pred_role}
use trueform.Select.Context.{Selection}
use trueform.Select.Matching.{
  axis_text, string_or, bool_or, predicate_matches, matches_every, matching,
}
use trueform.Select.Surely.{Surely, Surely->>=, Surely-map}

-- What a predicate asks of the metadata.
abbrev pub Holds : {N : Type 0} → Predicate → Selection N → Type 0
Holds pred_planar s = get (codes "planar") s.meta ≡ some (bool true)
Holds (pred_normal value) s = get (codes "normal") s.meta ≡ some (str (axis_text value))
Holds (pred_created_by id) s = get (codes "createdBy") s.meta ≡ some (str id)
Holds (pred_role value) s = get (codes "role") s.meta ≡ some (str value)

-- A test that answers true only for P.
abbrev pub Tells : Type 0 → Outcome Bool → Type 0
Tells P m = Surely (λ b. b ≡ true → P) m

module _ {N : Type 0} where
  string_or-Tells :
      (key value : Str) (v : Option (Value N))
      → Tells (v ≡ some (str value)) (string_or key v >>= λ s. ok (s == value))
  string_or-Tells key value (some (str s)) =
      λ e. let same : s ≡ value = (==_iff s value).0 e in rw same refl
  string_or-Tells key value _ = tt

  bool_or-Tells : (key : Str) (v : Option (Value N)) → Tells (v ≡ some (bool true)) (bool_or key v)
  bool_or-Tells key (some (bool b)) = λ e. rw e refl
  bool_or-Tells key _ = tt

  predicate-Tells : (p : Predicate) (s : Selection N) → Tells (Holds p s) (predicate_matches p s)
  unfolding predicate_matches
  predicate-Tells pred_planar s = bool_or-Tells _ (get (codes "planar") s.meta)
  predicate-Tells (pred_normal value) s =
      string_or-Tells _ (axis_text value) (get (codes "normal") s.meta)
  predicate-Tells (pred_created_by id) s = string_or-Tells _ id (get (codes "createdBy") s.meta)
  predicate-Tells (pred_role value) s = string_or-Tells _ value (get (codes "role") s.meta)

  every-Tells :
      (ps : List Predicate) (s : Selection N) → Tells (All (λ p. Holds p s) ps) (matches_every ps s)
  unfolding matches_every
  every-Tells [] s = λ e. tt
  every-Tells (p ∷ ps) s =
      Surely->>= (λ b. b ≡ true → Holds p s) _ (predicate_matches p s) _ (predicate-Tells p s)
        (λ b h. rest p ps s b h (every-Tells ps s))
    where
      rest :
          (p : Predicate) (ps : List Predicate) (s : Selection N) (b : Bool)
          → (b ≡ true → Holds p s)
          → Tells (All (λ q. Holds q s) ps) (matches_every ps s)
          → Tells (All (λ q. Holds q s) (p ∷ ps)) (if b then matches_every ps s else ok false)
      rest p ps s true h k = Surely-map _ _ (matches_every ps s) (λ b r e. (h refl, r e)) k
      rest p ps s false h k = λ e. cc

  -- P, the kind, and the predicates.
  abbrev pub Matched :
      (Selection N → Type 0) → (Selection N → Bool) → List Predicate → Selection N → Type 0
  Matched P of_kind ps s = P s × (of_kind s ≡ true) × All (λ p. Holds p s) ps

  kind_and_every-Tells :
      (of_kind : Selection N → Bool) (ps : List Predicate) (s : Selection N)
      → Tells
          ((of_kind s ≡ true) × All (λ p. Holds p s) ps)
          (if of_kind s then matches_every ps s else ok false)
  kind_and_every-Tells of_kind ps s = elim (Bool-cases (of_kind s)) [
    | inl yes_kind ↦
        rw yes_kind (Surely-map _ _ (matches_every ps s) (λ b h e. (refl, h e)) (every-Tells ps s))
    | inr no_kind ↦ rw no_kind (λ e. cc)
  ]

  pub matching-Surely :
      (P : Selection N → Type 0) (of_kind : Selection N → Bool) (ps : List Predicate)
      (ss : List (Selection N))
      → All P ss
      → Surely (All (Matched P of_kind ps)) (matching of_kind ps ss)
  unfolding matching
  matching-Surely P of_kind ps [] h = tt
  matching-Surely P of_kind ps (s ∷ ss) h =
      Surely->>= _ _ (if of_kind s then matches_every ps s else ok false) _
        (kind_and_every-Tells of_kind ps s)
        (λ b told.
          Surely->>= (All (Matched P of_kind ps)) _ (matching of_kind ps ss) _
            (matching-Surely P of_kind ps ss h.1) (λ rest k. take b rest told k))
    where
      take :
          (b : Bool) (rest : List (Selection N))
          → (b ≡ true → (of_kind s ≡ true) × All (λ p. Holds p s) ps)
          → All (Matched P of_kind ps) rest
          → All (Matched P of_kind ps) (if b then s ∷ rest else rest)
      take true rest told k = ((h.0, (told refl).0, (told refl).1), k)
      take false rest told k = k
