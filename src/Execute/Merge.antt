-- ===== src/Execute/Merge.antt =====
-- src/executor.ts: `mergeResults` and `reconstructStateFromSteps`.
use trueform.Base.{
  ℕ, Bool, true, not, Option, none, some, List, [], ◌∷◌, ◌++◌, foldl, keep_if, take,
}
use trueform.Base.Text.{Str, codes}
use trueform.Base.JsMap.{JsMap, get, put, has, add}
use trueform.Base.Value.{as_string}
use trueform.Kernel.{KernelSelection, KernelResult}

abbrev pub add_owner : List Str → Option Str → List Str
add_owner keys none = keys
add_owner keys (some k) = add k keys

-- `typeof ownerKey !== "string" || !ownerKeys.has(ownerKey)`
abbrev pub not_owned : List Str → Option Str → Bool
not_owned keys none = true
not_owned keys (some k) = not (has k keys)

abbrev pub put_all : {V : Type 0} → JsMap V → JsMap V → JsMap V
put_all old new = foldl (λ m e. put e.0 e.1 m) old new

module _ {N : Type 0} where
  -- selection.meta["ownerKey"], if it is a string
  unfoldable pub owner_key : KernelSelection N → Option Str
  unfolding get
  owner_key s = as_string (get (codes "ownerKey") s.meta)

  unfoldable pub owner_keys : List (KernelSelection N) → List Str
  owner_keys = foldl (λ keys s. add_owner keys (owner_key s)) []

  abbrev pub base_selections : List Str → List (KernelSelection N) → List (KernelSelection N)
  base_selections [] old = old
  base_selections (k ∷ keys) old = keep_if (λ s. not_owned (k ∷ keys) (owner_key s)) old

  unfoldable pub merge_results : KernelResult N → KernelResult N → KernelResult N
  unfolding owner_keys
  merge_results a b = record {
    outputs = put_all a.outputs b.outputs;
    selections = base_selections (owner_keys b.selections) a.selections ++ b.selections;
  }

abbrev pub empty_result : {N : Type 0} → KernelResult N
empty_result = record { outputs = []; selections = [] }

pub record FeatureStep (N : Type 0) : Type 0 where
  pub feature_id : Str
  pub result : KernelResult N

-- The steps from 0 to `count`; a missing step is skipped.
unfoldable pub reconstruct_state_from_steps :
    {N : Type 0} → List (FeatureStep N) → ℕ → KernelResult N
reconstruct_state_from_steps steps count =
    foldl (λ current step. merge_results current step.result) empty_result (take count steps)
