-- ===== src/Execute/Tests.antt =====
-- src/executor.ts: a part whose second feature is edited after a build. Numbers are natural numbers
-- here, a feature is its kind, and it is its own hash.
use trueform.Base.{ℕ, ◌≡◌, refl, true, false, Option, none, some, List, [], ◌∷◌, All, ◌↔◌}
use mathlib.Core.Option
use trueform.Base.Text.{Str, codes, ◌==◌}
use trueform.Base.JsMap.{JsMap, get, has, put, add}
use trueform.Kernel.{KernelResult, KernelObject, solid}
use trueform.Graph.Topo.{Graph}
use trueform.Base.Strings.{trim}
use trueform.Execute.Merge.{merge_results, reconstruct_state_from_steps}
use trueform.Execute.Closure.{is_empty, downstream_closure, expand, adjacency}
use trueform.Execute.Closure.Reach.{Reachable, downstream_closure_iff}
use trueform.Execute.Plan.{
  BuildResult, create_incremental_plan, sanitize_feature_ids, same_order, changed_ids, find_start,
  full, incremental,
}
use trueform.Execute.Build.{Attempt, returns, ok, build_from, build_part}
use trueform.Execute.Build.Equal.{outcome, WasBuilt}
use trueform.Execute.Build.Session.{
  IsHashed, NoCollision, Session, first, edit, incremental-eq-full, session-WasBuilt,
}

abbrev base : Str
base = codes "a"

abbrev detail : Str
detail = codes "b"

abbrev g : Graph
g = record { nodes = base ∷ detail ∷ []; edges = record { from = base; to = detail } ∷ [] }

abbrev box : Str
box = codes "box"

abbrev bore : Str
bore = codes "bore"

abbrev slot : Str
slot = codes "slot"

abbrev same : Str → Str
same f = f

abbrev execute : Str → KernelResult ℕ → Attempt ℕ (KernelResult ℕ)
execute f upstream =
    returns
      (record { outputs = (f, record { id = f; kind = solid; meta = [] }) ∷ []; selections = [] })

abbrev old : JsMap Str
old = (base, box) ∷ (detail, bore) ∷ []

abbrev edited : JsMap Str
edited = (base, box) ∷ (detail, slot) ∷ []

abbrev object : Str → Str × KernelObject ℕ
object f = (f, record { id = f; kind = solid; meta = [] })

abbrev made : Str → KernelResult ℕ
made f = record { outputs = object f ∷ []; selections = [] }

abbrev order : List Str
order = base ∷ detail ∷ []

abbrev before : BuildResult ℕ
before = record {
  part_id = codes "p";
  order = order;
  final = record { outputs = object box ∷ object bore ∷ []; selections = [] };
  steps =
      record { feature_id = base; result = made box }
      ∷ record { feature_id = detail; result = made bore }
      ∷ [];
  feature_hashes = old;
  diagnostics = record {
    mode = full;
    requested_changed_feature_ids = [];
    reused_feature_ids = [];
    invalidated_feature_ids = order;
    failed_feature_id = none;
  };
}

before_ran : build_part same none execute (codes "p") order g old old none ≡ ok before
unfolding build_part build_from create_incremental_plan get ◌==◌ merge_results put
before_ran = refl

self_hashed : (m : JsMap Str) (o : Option Str) → o ≡ Option.map same o
self_hashed m none = refl
self_hashed m (some f) = refl

old-IsHashed : IsHashed same old old
old-IsHashed = record { at = λ id. self_hashed old (get id old) }

edited-IsHashed : IsHashed same edited edited
edited-IsHashed = record { at = λ id. self_hashed edited (get id edited) }

old-NoCollision : NoCollision same old edited
old-NoCollision = record { at = λ id a b p q e. e }

order_full : All (λ id. is_empty id ≡ false) order
order_full = (refl, (refl, tt))

before-WasBuilt : WasBuilt same none execute old before
unfolding build_from get ◌==◌ merge_results put
before-WasBuilt = refl

incremental-eq-full_example :
    outcome (
      build_part same none execute
        (codes "p")
        order
        g
        edited
        edited
        (some (record { previous = some before; changed_feature_ids = detail ∷ [] })))
    ≡ outcome (build_part same none execute (codes "p") order g edited edited none)
incremental-eq-full_example =
    incremental-eq-full same none execute same (codes "p") order g edited edited before old
      (detail ∷ []) old-NoCollision order_full edited-IsHashed old-IsHashed before-WasBuilt

-- The edit is built from the first step on.
abbrev after : BuildResult ℕ
after = record {
  part_id = codes "p";
  order = order;
  final = record { outputs = object box ∷ object slot ∷ []; selections = [] };
  steps =
      record { feature_id = base; result = made box }
      ∷ record { feature_id = detail; result = made slot }
      ∷ [];
  feature_hashes = edited;
  diagnostics = record {
    mode = incremental;
    requested_changed_feature_ids = detail ∷ [];
    reused_feature_ids = base ∷ [];
    invalidated_feature_ids = detail ∷ [];
    failed_feature_id = none;
  };
}

after_ran :
    build_part same none execute
      (codes "p")
      order
      g
      edited
      edited
      (some (record { previous = some before; changed_feature_ids = detail ∷ [] }))
    ≡ ok after
unfolding build_part build_from create_incremental_plan get ◌==◌ merge_results put
    sanitize_feature_ids trim has add same_order changed_ids find_start downstream_closure expand
    adjacency reconstruct_state_from_steps
after_ran = refl

abbrev editing : Session same none execute same edited after
editing =
    edit (codes "p") order g edited edited after (detail ∷ [])
      (first (codes "p") order g old old before old-IsHashed before_ran) old-NoCollision order_full
      edited-IsHashed after_ran

session-WasBuilt_example : WasBuilt same none execute edited after × IsHashed same edited edited
session-WasBuilt_example = session-WasBuilt same none execute same edited after editing

downstream_closure_iff_example :
    (has detail (downstream_closure (base ∷ []) g) ≡ true) ↔ Reachable (base ∷ []) g.edges detail
downstream_closure_iff_example = downstream_closure_iff (base ∷ []) g detail
