-- ===== src/Execute/Plan.antt =====
-- src/executor.ts: `createIncrementalPlan`.
pub mod Start
use trueform.Base.{
  ℕ, zero, suc, ◌+◌, ◌≡◌, refl, Bool, true, false, not, ◌&&◌, ◌||◌, Option, none, some, List, [],
  ◌∷◌, ◌++◌, foldl, map, keep_if, length, take, drop, if◌then◌else◌, arith, eqb, leb,
}
use trueform.Base.Text.{Str, ◌==◌}
use trueform.Base.Strings.{trim}
use trueform.Base.JsMap.{JsMap, get, has, add}
use trueform.Kernel.{KernelResult}
use trueform.Graph.Topo.{Edge, Graph}
use trueform.Execute.Merge.{FeatureStep, empty_result, reconstruct_state_from_steps}
use trueform.Execute.Closure.{is_empty, downstream_closure}

pub data Mode : Type 0 where
  full incremental : Mode

pub record BuildExecutionDiagnostics : Type 0 where
  pub mode : Mode
  pub requested_changed_feature_ids : List Str
  pub reused_feature_ids : List Str
  pub invalidated_feature_ids : List Str
  pub failed_feature_id : Option Str

-- What the executor reads of a `BuildResult`.
pub record BuildResult (N : Type 0) : Type 0 where
  pub part_id : Str
  pub order : List Str
  pub final : KernelResult N
  pub steps : List (FeatureStep N)
  pub feature_hashes : JsMap Str
  pub diagnostics : BuildExecutionDiagnostics

pub record Incremental (N : Type 0) : Type 0 where
  pub previous : Option (BuildResult N)
  pub changed_feature_ids : List Str

pub record IncrementalPlan (N : Type 0) : Type 0 where
  pub mode : Mode
  pub start_index : ℕ
  pub base_state : KernelResult N
  pub base_steps : List (FeatureStep N)
  pub requested_changed_feature_ids : List Str
  pub reused_feature_ids : List Str
  pub invalidated_feature_ids : List Str

-- Array.from(new Set(ids))
unfoldable pub dedupe : List Str → List Str
dedupe = foldl (λ seen id. add id seen) []

unfoldable pub sanitize_feature_ids : List Str → List Str → List Str
unfolding dedupe
sanitize_feature_ids ids known =
    dedupe (keep_if (λ id. not (is_empty id) && has id known) (map trim ids))

unfoldable pub same_order : List Str → List Str → Bool
same_order [] [] = true
same_order [] (y ∷ ys) = false
same_order (x ∷ xs) [] = false
same_order (x ∷ xs) (y ∷ ys) = let rest = same_order xs ys in if x == y then rest else false

-- `prevHash !== nextHash`, where a missing hash is `undefined`
abbrev pub hash_differs : Option Str → Option Str → Bool
hash_differs none none = false
hash_differs none (some b) = true
hash_differs (some a) none = true
hash_differs (some a) (some b) = not (a == b)

-- The changed ids: those requested, and those whose hash is another one now.
unfoldable pub changed_ids : JsMap Str → JsMap Str → List Str → List Str → List Str
changed_ids previous_hashes feature_hashes order requested =
    foldl
      (λ changed id.
        if hash_differs (get id previous_hashes) (get id feature_hashes)
        then add id changed
        else changed)
      requested order

-- The first index at which `downstream.has(id)`, or the length.
unfoldable pub find_start : List Str → List Str → ℕ
find_start downstream [] = 0
find_start downstream (id ∷ order) =
    let rest = suc (find_start downstream order) in
    if not (is_empty id) && has id downstream then 0 else rest

module _ {N : Type 0} where
  abbrev pub full_plan : List Str → List Str → Mode → IncrementalPlan N
  full_plan order requested mode = record {
    mode = mode;
    start_index = 0;
    base_state = empty_result;
    base_steps = [];
    requested_changed_feature_ids = requested;
    reused_feature_ids = [];
    invalidated_feature_ids = order;
  }

  -- No changed id at all.
  abbrev pub reuse_all : List Str → List Str → BuildResult N → IncrementalPlan N
  reuse_all order requested previous = record {
    mode = incremental;
    start_index = length order;
    base_state = previous.final;
    base_steps = previous.steps;
    requested_changed_feature_ids = requested;
    reused_feature_ids = order;
    invalidated_feature_ids = [];
  }

  abbrev pub resume_at : ℕ → List Str → List Str → BuildResult N → IncrementalPlan N
  resume_at start order requested previous =
      if leb start 0 then full_plan order requested incremental else record {
        mode = incremental;
        start_index = start;
        base_state = reconstruct_state_from_steps previous.steps start;
        base_steps = take start previous.steps;
        requested_changed_feature_ids = requested;
        reused_feature_ids = take start order;
        invalidated_feature_ids = drop start order;
      }

  abbrev pub plan_changed :
      List Str → Graph → List Str → BuildResult N → List Str → IncrementalPlan N
  plan_changed order g requested previous [] = reuse_all order requested previous
  plan_changed order g requested previous (c ∷ changed) =
      resume_at (find_start (downstream_closure (c ∷ changed) g) order) order requested previous

  -- The guards under which a previous build cannot be used.
  abbrev pub reusable : Str → List Str → List Str → BuildResult N → Bool
  reusable part_id order requested previous =
      not (eqb (length requested) 0)
      && (previous.part_id == part_id)
      && same_order previous.order order
      && eqb (length previous.steps) (length previous.order)

  abbrev pub plan_from :
      Str → List Str → Graph → JsMap Str → List Str → Option (BuildResult N) → IncrementalPlan N
  plan_from part_id order g hashes requested none = full_plan order requested full
  plan_from part_id order g hashes requested (some previous) =
      if reusable part_id order requested previous
      then plan_changed order g requested previous
          (changed_ids previous.feature_hashes hashes order requested)
      else full_plan order requested full

  unfoldable pub create_incremental_plan :
      Str → List Str → Graph → JsMap Str → Option (Incremental N) → IncrementalPlan N
  create_incremental_plan part_id order g hashes none = full_plan order [] full
  create_incremental_plan part_id order g hashes (some i) =
      plan_from part_id order g hashes (sanitize_feature_ids i.changed_feature_ids order) i.previous
