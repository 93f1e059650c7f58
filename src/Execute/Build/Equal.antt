-- ===== src/Execute/Build/Equal.antt =====
-- src/executor.ts: an incremental build has the result of a full build.
use trueform.Base.{
  ℕ, ◌≤◌, ◌<◌, ◌≡◌, refl, sym, ap, ◌∙◌, true, false, Option, some, List, [], ◌∷◌, length, take,
  drop, take-append-drop, Bool-cases, inl, inr, arith, All, All-map, leb, subst,
}
use trueform.Base.Text.{Str, ==_iff}
use trueform.Base.JsMap.{JsMap, get}
use trueform.Kernel.{KernelResult, BackendCapabilities}
use trueform.Graph.Topo.{Graph}
use trueform.Execute.Merge.{reconstruct_state_from_steps}
use trueform.Execute.Closure.{is_empty, downstream_closure}
use trueform.Execute.Plan.{
  BuildResult, Incremental, IncrementalPlan, create_incremental_plan, plan_from, plan_changed,
  reusable, changed_ids, find_start, hash_differs, same_order,
}
use trueform.Execute.Plan.Start.{changed_ids-ne-nil, find_start-le, prefix_keeps_hashes}
use trueform.Execute.Build.{
  Result, ok, err, ◌>>=◌, Attempt, Progress, build_from, build_part, finalize_build_result,
}
use trueform.Execute.Build.Resume.{start, run-take, build_from-append, build_from-congr}

-- What a build does: the final state with the steps, or the error.
abbrev pub outcome : {N : Type 0} → Result N (BuildResult N) → Result N (Progress N)
outcome (ok b) = ok (record { current = b.final; steps = b.steps })
outcome (err e) = err e

pub same_order-eq : (xs ys : List Str) → same_order xs ys ≡ true → xs ≡ ys
unfolding same_order
same_order-eq [] [] h = refl
same_order-eq [] (y ∷ ys) h = cc
same_order-eq (x ∷ xs) [] h = cc
same_order-eq (x ∷ xs) (y ∷ ys) h = ground (arith, ==_iff x y, same_order-eq xs ys)

module _ {N F : Type 0} (kind : F → Str) (caps : Option BackendCapabilities)
    (execute : F → KernelResult N → Attempt N (KernelResult N)) where
  abbrev run : JsMap F → List Str → Progress N → Result N (Progress N)
  run = build_from kind caps execute

  -- What is left to do after a plan.
  abbrev pub resume : JsMap F → List Str → IncrementalPlan N → Result N (Progress N)
  resume features order plan =
      run features (drop plan.start_index order)
        (record { current = plan.base_state; steps = plan.base_steps })

  pub outcome-build_part :
      (part_id : Str) (order : List Str) (g : Graph) (hashes : JsMap Str) (features : JsMap F)
      (incremental : Option (Incremental N))
      → outcome (build_part kind caps execute part_id order g hashes features incremental)
        ≡ resume features order (create_incremental_plan part_id order g hashes incremental)
  unfolding build_part
  outcome-build_part part_id order g hashes features incremental =
      go (resume features order (create_incremental_plan part_id order g hashes incremental))
    where
      plan : IncrementalPlan N
      plan = create_incremental_plan part_id order g hashes incremental

      go :
          (r : Result N (Progress N))
          → outcome (r >>= λ p. ok (finalize_build_result part_id order hashes plan p)) ≡ r
      go (ok p) = refl
      go (err e) = refl

  -- A previous full build, of the same order.
  module _ (order : List Str) (features features' : JsMap F) (q : Progress N)
      (built : run features order start ≡ ok q) where
    -- Going on from the `k` first steps gives the run from the start, if the features that built
    -- them are the same.
    resume_at_prefix :
        (k : ℕ)
        → k ≤ length order
        → All (λ id. get id features ≡ get id features') (take k order)
        → run features'
            (drop k order)
            (record { current = reconstruct_state_from_steps q.steps k; steps = take k q.steps })
          ≡ run features' order start
    resume_at_prefix k le same =
        let before =
          sym (build_from-congr kind caps execute features features' (take k order) start same)
          ∙ run-take kind caps execute features order k q built le in
        sym (
          ap (λ l. run features' l start) (sym (take-append-drop k order))
          ∙ build_from-append kind caps execute features' (take k order) (drop k order) start
          ∙ ap (λ r. r >>= run features' (drop k order)) before)

  -- A result that the loop reaches from the start, over all ids.
  abbrev pub WasBuilt : JsMap F → BuildResult N → Type 0
  WasBuilt features b =
      run features b.order start ≡ ok (record { current = b.final; steps = b.steps })

  module _ (order : List Str) (g : Graph) (hashes : JsMap Str) (features features' : JsMap F)
      (previous : BuildResult N) (built : WasBuilt features previous)
      (same_ids : previous.order ≡ order) (full : All (λ id. is_empty id ≡ false) order)
      (kept : (id : Str)
        → hash_differs (get id previous.feature_hashes) (get id hashes) ≡ false
        → get id features ≡ get id features') where
    abbrev last : Progress N
    last = record { current = previous.final; steps = previous.steps }

    built_here : run features order start ≡ ok last
    built_here = subst (λ l. run features l start ≡ ok last) same_ids built

    resume-plan_changed :
        (requested changed : List Str)
        → 0 < length requested
        → changed_ids previous.feature_hashes hashes order requested ≡ changed
        → resume features' order (plan_changed order g requested previous changed)
          ≡ run features' order start
    resume-plan_changed requested [] some_id e =
        absurd (changed_ids-ne-nil previous.feature_hashes hashes order requested some_id e)
    resume-plan_changed requested (c ∷ changed) some_id e =
        let k = find_start (downstream_closure (c ∷ changed) g) order in
        elim (Bool-cases (leb k 0)) [
          | inl first ↦ rw first
          | inr later ↦ rw later (
              resume_at_prefix order features features' last built_here k
                (find_start-le (downstream_closure (c ∷ changed) g) order)
                (All-map (take k order) kept (
                  rw (← e)
                    (prefix_keeps_hashes previous.feature_hashes hashes order requested g full))))
        ]

    pub resume-plan :
        (part_id : Str) (requested : List Str)
        → resume features' order (plan_from part_id order g hashes requested (some previous))
          ≡ run features' order start
    resume-plan part_id requested = elim (Bool-cases (reusable part_id order requested previous)) [
      | inl usable ↦ rw usable (
          resume-plan_changed requested (changed_ids previous.feature_hashes hashes order requested)
            (ground (arith, usable)) refl)
      | inr not_usable ↦ rw not_usable
    ]
