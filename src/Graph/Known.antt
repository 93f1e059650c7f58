-- ===== src/Graph/Known.antt =====
-- src/graph.ts: what `buildDependencyGraph` infers for one feature names features of the part.
use trueform.Base.{
  ◌≡◌, refl, sym, ap, ◌∙◌, Bool, true, false, Option, none, some, List, [], ◌∷◌, ◌++◌, All,
  Bool-cases, Option-cases, inl, inr,
}
use trueform.Base.Text.{Str}
use trueform.Base.JsMap.{get-has, JsMap, get, keys, has, add}
use trueform.Base.Outcome.{Outcome, ok, err, ◌>>=◌}
use trueform.Ir.Selectors.{PlaneRef, on_selector, plane_datum}
use trueform.Ir.Scalars.{
  AxisSpec, along, axis_vector, axis_datum, ExtrudeAxis, axis_spec, sketch_normal,
}
use trueform.Ir.Sketches.{ProfileRef, inline_profile, profile_ref}
use trueform.Ir.Details.{PatternRef}
use trueform.Ir.Features.{IntentFeature}
use trueform.Graph.Features.{truthy, is_plane_or_frame}
use trueform.Graph.Inference.{
  add_all, add_profile_deps, is_pattern, pattern_id, pattern_dep, is_datum_axis, add_plane_ref_dep,
  add_axis_spec_dep, add_extrude_axis_dep,
}

-- A success satisfies a predicate.
abbrev pub Ensures {ℓ κ} : {A : Type ℓ} → (A → Type κ) → Outcome A → Type κ
Ensures P (err e) = Unit
Ensures P (ok a) = P a

pub Ensures->>= {ℓ κ} :
    {A B : Type ℓ} (P : A → Type κ) (Q : B → Type κ) (m : Outcome A) (next : A → Outcome B)
    → Ensures P m
    → ((a : A) → P a → Ensures Q (next a))
    → Ensures Q (m >>= next)
Ensures->>= P Q (err e) next h k = tt
Ensures->>= P Q (ok a) next h k = k a h

pub Ensures-map {ℓ κ} :
    {A : Type ℓ} (P Q : A → Type κ) (m : Outcome A)
    → ((a : A) → P a → Q a)
    → Ensures P m
    → Ensures Q m
Ensures-map P Q (err e) f h = tt
Ensures-map P Q (ok a) f h = f a h

abbrev pub Known : List Str → List Str → Type 0
Known ids deps = All (λ d. has d ids ≡ true) deps

abbrev pub KnownOption : List Str → Option Str → Type 0
KnownOption ids none = Unit
KnownOption ids (some d) = has d ids ≡ true

-- Each value of an index is known.
abbrev pub KnownIndex : List Str → JsMap Str → Type 0
KnownIndex ids index = (name d : Str) → get name index ≡ some d → has d ids ≡ true

Known-snoc :
    (ids deps : List Str) (d : Str) → Known ids deps → has d ids ≡ true → Known ids (deps ++ d ∷ [])
Known-snoc ids [] d k h = (h, tt)
Known-snoc ids (e ∷ deps) d k h = (k.0, Known-snoc ids deps d k.1 h)

pub Known-add :
    (ids deps : List Str) (d : Str) → Known ids deps → has d ids ≡ true → Known ids (add d deps)
unfolding add
Known-add ids deps d k h = elim (Bool-cases (has d deps)) [
  | inl there ↦ rw there k
  | inr new ↦ rw new (Known-snoc ids deps d k h)
]

pub Known-add_all :
    (ids more deps : List Str) → Known ids more → Known ids deps → Known ids (add_all more deps)
Known-add_all ids [] deps m k = k
Known-add_all ids (d ∷ more) deps m k =
    Known-add_all ids more (add d deps) m.1 (Known-add ids deps d k m.0)

pub truthy-some : (o : Option Str) (d : Str) → truthy o ≡ some d → o ≡ some d
truthy-some none d e = cc
truthy-some (some []) d e = cc
truthy-some (some (c ∷ s)) d e = e

pub KnownOption-truthy :
    (ids : List Str) (o : Option Str) → KnownOption ids o → KnownOption ids (truthy o)
KnownOption-truthy ids none k = tt
KnownOption-truthy ids (some []) k = tt
KnownOption-truthy ids (some (c ∷ s)) k = k

pub KnownOption-of_index :
    (ids : List Str) (index : JsMap Str) (name : Str)
    → KnownIndex ids index
    → KnownOption ids (truthy (get name index))
KnownOption-of_index ids index name known = elim (Option-cases (get name index)) [
  | inl gone ↦ rw gone tt
  | inr hit ↦ rw hit.1 (KnownOption-truthy ids (some hit.0) (known name hit.0 hit.1))
]

module _ {N : Type 0} (by_id : JsMap (IntentFeature N)) where
  pub add_profile_deps-Known :
      (id : Str) (index : JsMap Str) (refs : List (ProfileRef N)) (deps : List Str)
      → KnownIndex (keys by_id) index
      → Known (keys by_id) deps
      → Ensures (Known (keys by_id)) (add_profile_deps by_id id index refs deps)
  add_profile_deps-Known id index [] deps known k = k
  add_profile_deps-Known id index (inline_profile p ∷ refs) deps known k =
      add_profile_deps-Known id index refs deps known k
  add_profile_deps-Known id index (profile_ref name ∷ refs) deps known k =
      elim (Option-cases (truthy (get name index))) [
        | inl gone ↦ rw gone tt
        | inr hit ↦ rw hit.1 (
            add_profile_deps-Known id index refs (add hit.0 deps) known (
              Known-add (keys by_id) deps hit.0 k
                (known name hit.0 (truthy-some (get name index) hit.0 hit.1))))
      ]

  pub found-has :
      (ref : Str) (test : Option (IntentFeature N) → Bool)
      → test none ≡ false
      → test (get ref by_id) ≡ true
      → has ref (keys by_id) ≡ true
  found-has ref test off on = elim (Option-cases (get ref by_id)) [
    | inl gone ↦ let both : true ≡ false = sym on ∙ ap test gone ∙ off in cc
    | inr hit ↦ get-has ref by_id hit.1
  ]

  pub pattern_dep-Known :
      (id : Str) (p : Option PatternRef)
      → Ensures (KnownOption (keys by_id)) (pattern_dep by_id id p)
  pattern_dep-Known id none = tt
  pattern_dep-Known id (some p) =
      elim (Bool-cases (is_pattern by_id (get (pattern_id by_id p) by_id))) [
        | inl there ↦ rw there (found-has (pattern_id by_id p) (is_pattern by_id) refl there)
        | inr missing ↦ rw missing tt
      ]

  pub add_plane_ref_dep-Known :
      (id : Str) (p : Option PlaneRef) (deps : List Str)
      → Known (keys by_id) deps
      → Ensures (Known (keys by_id)) (add_plane_ref_dep by_id id p deps)
  add_plane_ref_dep-Known id none deps k = k
  add_plane_ref_dep-Known id (some (on_selector s)) deps k = k
  add_plane_ref_dep-Known id (some (plane_datum ref)) deps k =
      elim (Bool-cases (is_plane_or_frame (get ref by_id))) [
        | inl there ↦
            rw there
              (Known-add (keys by_id) deps ref k (found-has ref is_plane_or_frame refl there))
        | inr missing ↦ rw missing tt
      ]

  pub add_axis_spec_dep-Known :
      (id : Str) (axis : Option (AxisSpec N)) (deps : List Str)
      → Known (keys by_id) deps
      → Ensures (Known (keys by_id)) (add_axis_spec_dep by_id id axis deps)
  add_axis_spec_dep-Known id none deps k = k
  add_axis_spec_dep-Known id (some (along d)) deps k = k
  add_axis_spec_dep-Known id (some (axis_vector d)) deps k = k
  add_axis_spec_dep-Known id (some (axis_datum ref)) deps k =
      elim (Bool-cases (is_datum_axis by_id (get ref by_id))) [
        | inl there ↦
            rw there
              (Known-add (keys by_id) deps ref k (found-has ref (is_datum_axis by_id) refl there))
        | inr missing ↦ rw missing tt
      ]

  pub add_extrude_axis_dep-Known :
      (id : Str) (axis : Option (ExtrudeAxis N)) (deps : List Str)
      → Known (keys by_id) deps
      → Ensures (Known (keys by_id)) (add_extrude_axis_dep by_id id axis deps)
  add_extrude_axis_dep-Known id none deps k = k
  add_extrude_axis_dep-Known id (some sketch_normal) deps k = k
  add_extrude_axis_dep-Known id (some (axis_spec axis)) deps k =
      add_axis_spec_dep-Known id (some axis) deps k
