-- ===== src/Execute/Build.antt =====
-- src/executor.ts: the loop of `buildPart` and its errors.
pub mod Resume
pub mod Equal
pub mod Session
use trueform.Base.{
  ℕ, zero, suc, ◌+◌, ◌≡◌, refl, Bool, true, false, not, ◌&&◌, Option, none, some, List, [], ◌∷◌,
  ◌++◌, foldl, map, keep_if, length, take, drop, if◌then◌else◌, arith,
}
use trueform.Base.Text.{Str}
use trueform.Base.JsMap.{JsMap, get, has}
use trueform.Base.Value.{Value}
use trueform.Kernel.{KernelResult, BackendCapabilities}
use trueform.Graph.Topo.{Graph}
use trueform.Execute.Merge.{FeatureStep, merge_results}
use trueform.Execute.Plan.{
  BuildResult, Incremental, IncrementalPlan, BuildExecutionDiagnostics, create_incremental_plan,
}

-- A thrown value: whether it is an object, and its own `featureId` if that is a string.
pub record Thrown (N : Type 0) : Type 0 where
  pub is_object : Bool
  pub feature_id : Option Str
  pub value : Value N

pub data BuildError (N : Type 0) : Type 0 where
  missing_feature : (id : Str) → BuildError N
  backend_unsupported_feature : (name : Option Str) (kind : Str) → BuildError N
  thrown : Thrown N → BuildError N

-- A value, or the error that is thrown.
pub data Result {ℓ} (N : Type 0) (A : Type ℓ) : Type ℓ where
  err : BuildError N → Result N A
  ok : A → Result N A

infixl 5 ◌>>=◌
abbrev pub ◌>>=◌ {ℓ κ} :
    {N : Type 0} {A : Type ℓ} {B : Type κ} (m : Result N A) (next : A → Result N B) → Result N B
err problem >>= next = err problem
ok value >>= next = next value

pub data Attempt (N A : Type 0) : Type 0 where
  returns : A → Attempt N A
  throws : Thrown N → Attempt N A

-- The first feature id that is set stays.
unfoldable pub with_feature_id : {N : Type 0} → Thrown N → Str → Thrown N
with_feature_id t id =
    if t.is_object
    then (elim t.feature_id [ none ↦ record t { feature_id = some id } | some old ↦ t ])
    else t

-- `!caps || !caps.featureKinds || caps.featureKinds.includes(featureKind)`
abbrev pub supports : Option BackendCapabilities → Str → Bool
supports none kind = true
supports (some caps) kind = elim caps.feature_kinds [ none ↦ true | some kinds ↦ has kind kinds ]

abbrev pub backend_name : Option BackendCapabilities → Option Str
backend_name none = none
backend_name (some caps) = caps.name

-- The variables of the loop.
pub record Progress (N : Type 0) : Type 0 where
  pub current : KernelResult N
  pub steps : List (FeatureStep N)

-- Without the connectors. An error is thrown on, so `failedFeatureId` is `null` here.
unfoldable pub finalize_build_result :
    {N : Type 0} → Str → List Str → JsMap Str → IncrementalPlan N → Progress N → BuildResult N
finalize_build_result part_id order hashes plan p = record {
  part_id = part_id;
  order = order;
  final = p.current;
  steps = p.steps;
  feature_hashes = hashes;
  diagnostics = record {
    mode = plan.mode;
    requested_changed_feature_ids = plan.requested_changed_feature_ids;
    reused_feature_ids = plan.reused_feature_ids;
    invalidated_feature_ids = plan.invalidated_feature_ids;
    failed_feature_id = none;
  };
}

-- `caps` and `execute` are the backend's: `execute feature upstream` is the call
-- `backend.execute({ feature, upstream, resolve })`, whose `resolve` is always the same function.
module _ {N F : Type 0} (kind : F → Str) (caps : Option BackendCapabilities)
    (execute : F → KernelResult N → Attempt N (KernelResult N)) where
  abbrev pub executed : Str → Progress N → Attempt N (KernelResult N) → Result N (Progress N)
  executed id p (throws e) = err (thrown (with_feature_id e id))
  executed id p (returns r) = ok (record {
    current = merge_results p.current r;
    steps = p.steps ++ record { feature_id = id; result = r } ∷ [];
  })

  abbrev pub build_feature : Str → Option F → Progress N → Result N (Progress N)
  build_feature id none p = err (missing_feature id)
  build_feature id (some feature) p =
      if supports caps (kind feature)
      then executed id p (execute feature p.current)
      else err (backend_unsupported_feature (backend_name caps) (kind feature))

  -- The loop over the rest of the order.
  unfoldable pub build_from : JsMap F → List Str → Progress N → Result N (Progress N)
  build_from features [] p = ok p
  build_from features (id ∷ ids) p =
      build_feature id (get id features) p >>= build_from features ids

  -- `buildPart` on a prepared part.
  unfoldable pub build_part :
      (part_id : Str) (order : List Str) (g : Graph) (hashes : JsMap Str) (features : JsMap F)
      → Option (Incremental N)
      → Result N (BuildResult N)
  unfolding finalize_build_result
  build_part part_id order g hashes features incremental =
      let plan = create_incremental_plan part_id order g hashes incremental in
      build_from features (drop plan.start_index order)
        (record { current = plan.base_state; steps = plan.base_steps })
      >>= λ p. ok (finalize_build_result part_id order hashes plan p)

module _ {N : Type 0} where
  pub >>=-congr {ℓ κ} :
      {A : Type ℓ} {B : Type κ} (r : Result N A) {f g : A → Result N B}
      → ((a : A) → f a ≡ g a)
      → (r >>= f) ≡ (r >>= g)
  >>=-congr (ok a) h = h a
  >>=-congr (err e) h = refl

  pub >>=_assoc {ℓ κ μ} :
      {A : Type ℓ} {B : Type κ} {C : Type μ} (r : Result N A) (f : A → Result N B)
      (g : B → Result N C)
      → (r >>= f >>= g) ≡ (r >>= λ a. f a >>= g)
  >>=_assoc (ok a) f g = refl
  >>=_assoc (err e) f g = refl

  pub >>=-eq-ok {ℓ κ} :
      {B : Type κ} {A : Type ℓ} (call : Result N A) (next : A → Result N B) {final : B}
      → (call >>= next) ≡ ok final
      → (value : A) × (call ≡ ok value) × (next value ≡ ok final)
  >>=-eq-ok (err problem) next e = cc
  >>=-eq-ok (ok value) next e = (value, refl, e)
