-- ===== src/Select/Context.antt =====
-- src/resolution_context.ts: what selectors are resolved in.
use trueform.Base.{Option, none, some, List, [], ◌∷◌, map}
use trueform.Base.Text.{Str}
use trueform.Base.JsMap.{JsMap, put}
use trueform.Base.Value.{Value}
use trueform.Kernel.{KernelObject, KernelResult, ObjectKind, SelectionKind}

pub record Selection (N : Type 0) : Type 0 where
  pub id : Str
  pub kind : SelectionKind
  pub meta : JsMap (Value N)

pub record ResolutionContext (N : Type 0) : Type 0 where
  pub selections : List (Selection N)
  pub named : JsMap (Selection N)

abbrev pub selection_kind : ObjectKind → Option SelectionKind
selection_kind ObjectKind.face = some SelectionKind.face
selection_kind ObjectKind.edge = some SelectionKind.edge
selection_kind ObjectKind.solid = some SelectionKind.solid
selection_kind ObjectKind.surface = some SelectionKind.surface
selection_kind _ = none

abbrev pub name_object :
    {N : Type 0}
    → Str
    → KernelObject N
    → Option SelectionKind
    → JsMap (Selection N)
    → JsMap (Selection N)
name_object key obj none named = named
name_object key obj (some kind) named =
    put key (record { id = obj.id; kind = kind; meta = obj.meta }) named

unfoldable pub named_outputs :
    {N : Type 0} → JsMap (KernelObject N) → JsMap (Selection N) → JsMap (Selection N)
named_outputs [] named = named
named_outputs ((key, obj) ∷ outputs) named =
    named_outputs outputs (name_object key obj (selection_kind obj.kind) named)

-- The `record` of a kernel's selection is not read by the selectors.
unfoldable pub kernel_result_to_resolution_context :
    {N : Type 0} → KernelResult N → ResolutionContext N
unfolding named_outputs
kernel_result_to_resolution_context upstream = record {
  selections = map (λ s. record { id = s.id; kind = s.kind; meta = s.meta }) upstream.selections;
  named = named_outputs upstream.outputs [];
}
