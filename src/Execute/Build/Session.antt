-- ===== src/Execute/Build/Session.antt =====
-- src/executor.ts: builds that go on from one another, as in an editing session.
use trueform.Base.{
  ◌≡◌, refl, sym, ap, ◌∙◌, false, Option, none, some, List, Bool-cases, inl, inr, arith, All,
}
use mathlib.Core.Option
use trueform.Base.Text.{Str, ==_iff}
use trueform.Base.JsMap.{JsMap, get}
use trueform.Kernel.{KernelResult, BackendCapabilities}
use trueform.Graph.Topo.{Graph}
use trueform.Execute.Closure.{is_empty}
use trueform.Execute.Plan.{
  BuildResult, Incremental, create_incremental_plan, plan_from, same_order, reusable, hash_differs,
  sanitize_feature_ids,
}
use trueform.Execute.Build.{ok, >>=-eq-ok, Attempt, build_part, build_from, finalize_build_result}
use trueform.Execute.Build.Resume.{start}
use trueform.Execute.Build.Equal.{
  outcome, outcome-build_part, WasBuilt, resume-plan, same_order-eq, resume,
}

-- Each feature has the hash of its content.
pub record IsHashed {F : Type 0} (hash : F → Str) (hashes : JsMap Str) (features : JsMap F)
    : Type 0 where
  pub at : (id : Str) → get id hashes ≡ Option.map hash (get id features)

-- The features that two maps give to an id are told apart by their hashes.
pub record NoCollision {F : Type 0} (hash : F → Str) (old new : JsMap F) : Type 0 where
  pub at :
      (id : Str) (a b : F) → get id old ≡ some a → get id new ≡ some b → hash a ≡ hash b → a ≡ b

same_of_hash :
    {F : Type 0} (hash : F → Str) (a b : Option F)
    → ((x y : F) → a ≡ some x → b ≡ some y → hash x ≡ hash y → x ≡ y)
    → hash_differs (Option.map hash a) (Option.map hash b) ≡ false
    → a ≡ b
same_of_hash hash none none inj h = refl
same_of_hash hash none (some b) inj h = ground arith
same_of_hash hash (some a) none inj h = ground arith
same_of_hash hash (some a) (some b) inj h =
    ap some (inj a b refl refl (ground (arith, ==_iff (hash a) (hash b))))

module _ {N F : Type 0} (kind : F → Str) (caps : Option BackendCapabilities)
    (execute : F → KernelResult N → Attempt N (KernelResult N)) where
  resume_any :
      (part_id : Str) (order : List Str) (g : Graph) (hashes : JsMap Str) (features : JsMap F)
      (previous : BuildResult N) (old : JsMap F) (changed : List Str)
      → All (λ id. is_empty id ≡ false) order
      → WasBuilt kind caps execute old previous
      → ((id : Str)
          → hash_differs (get id previous.feature_hashes) (get id hashes) ≡ false
          → get id old ≡ get id features)
      → resume kind caps execute features order
          (plan_from part_id order g hashes (sanitize_feature_ids changed order) (some previous))
        ≡ build_from kind caps execute features order start
  resume_any part_id order g hashes features previous old changed full built kept =
      elim (Bool-cases (same_order previous.order order)) [
        | inl same ↦
            resume-plan kind caps execute order g hashes old features previous built
              (same_order-eq previous.order order same) full kept part_id
              (sanitize_feature_ids changed order)
        | inr other ↦
            let unusable : reusable part_id order (sanitize_feature_ids changed order) previous
                ≡ false =
              ground (arith, other) in
            rw unusable
      ]

  -- A build that goes on from the result of another build does what a full build does: the same
  -- final state and the same steps, or the same error. The other build may have had other features,
  -- and another order; the hashes tell the features of an id apart, and no feature id is empty.
  pub incremental-eq-full :
      (hash : F → Str) (part_id : Str) (order : List Str) (g : Graph) (hashes : JsMap Str)
      (features : JsMap F) (previous : BuildResult N) (old : JsMap F) (changed : List Str)
      → NoCollision hash old features
      → All (λ id. is_empty id ≡ false) order
      → IsHashed hash hashes features
      → IsHashed hash previous.feature_hashes old
      → WasBuilt kind caps execute old previous
      → outcome (
          build_part kind caps execute part_id order g hashes features
            (some (record { previous = some previous; changed_feature_ids = changed })))
        ≡ outcome (build_part kind caps execute part_id order g hashes features none)
  unfolding create_incremental_plan
  incremental-eq-full hash part_id order g hashes features previous old changed inj full hashed
        hashed_old built =
      outcome-build_part kind caps execute part_id order g hashes features _
      ∙ resume_any part_id order g hashes features previous old changed full built (λ id h.
        same_of_hash hash (get id old) (get id features) (inj.at id)
          (rw (hashed_old.at id, hashed.at id) at h))
      ∙ sym (outcome-build_part kind caps execute part_id order g hashes features none)

  -- The results of a session: a full build, then builds that each go on from the last.
  pub data Session (hash : F → Str) : JsMap F → BuildResult N → Type 0 where
    first :
        (part_id : Str) (order : List Str) (g : Graph) (hashes : JsMap Str) (features : JsMap F)
        (b : BuildResult N)
        → IsHashed hash hashes features
        → build_part kind caps execute part_id order g hashes features none ≡ ok b
        → Session hash features b
    edit :
        (part_id : Str) (order : List Str) (g : Graph) (hashes : JsMap Str) {old : JsMap F}
        (features : JsMap F) {previous : BuildResult N} (b : BuildResult N) (changed : List Str)
        → Session hash old previous
        → NoCollision hash old features
        → All (λ id. is_empty id ≡ false) order
        → IsHashed hash hashes features
        → build_part kind caps execute part_id order g hashes features
            (some (record { previous = some previous; changed_feature_ids = changed }))
          ≡ ok b
        → Session hash features b

  build_part-eq-ok :
      (part_id : Str) (order : List Str) (g : Graph) (hashes : JsMap Str) (features : JsMap F)
      (incremental : Option (Incremental N)) (b : BuildResult N)
      → build_part kind caps execute part_id order g hashes features incremental ≡ ok b
      → (b.order ≡ order) × (b.feature_hashes ≡ hashes)
  unfolding build_part
  build_part-eq-ok part_id order g hashes features incremental b h =
      let plan = create_incremental_plan part_id order g hashes incremental in
      let (p, ran, e) =
        >>=-eq-ok (resume kind caps execute features order plan)
          (λ p. ok (finalize_build_result part_id order hashes plan p)) h in
      (ground (arith, e), ground (arith, e))

  WasBuilt-of_outcome :
      (part_id : Str) (order : List Str) (g : Graph) (hashes : JsMap Str) (features : JsMap F)
      (b : BuildResult N)
      → b.order ≡ order
      → outcome (build_part kind caps execute part_id order g hashes features none)
        ≡ ok (record { current = b.final; steps = b.steps })
      → WasBuilt kind caps execute features b
  unfolding create_incremental_plan
  WasBuilt-of_outcome part_id order g hashes features b same h =
      rw same (sym (outcome-build_part kind caps execute part_id order g hashes features none) ∙ h)

  -- Every result of a session is what the loop reaches from the start over all features of its part.
  pub session-WasBuilt :
      (hash : F → Str) (features : JsMap F) (b : BuildResult N)
      → Session hash features b
      → WasBuilt kind caps execute features b × IsHashed hash b.feature_hashes features
  session-WasBuilt hash _ _ (first part_id order g hashes features b hashed ran) =
      let (same, same_hashes) = build_part-eq-ok part_id order g hashes features none b ran in
      (
        WasBuilt-of_outcome part_id order g hashes features b same (ap outcome ran),
        rw same_hashes hashed,
      )
  session-WasBuilt hash _ _
        (edit part_id order g hashes {old = old} features {previous = previous} b changed s inj full
          hashed ran) =
      let (built, hashed_old) = session-WasBuilt hash old previous s in
      let (same, same_hashes) = build_part-eq-ok part_id order g hashes features _ b ran in
      (
        WasBuilt-of_outcome part_id order g hashes features b same (
            sym (
              incremental-eq-full hash part_id order g hashes features previous old changed inj full
                hashed hashed_old built)
            ∙ ap outcome ran),
        rw same_hashes hashed,
      )
