-- ===== src/Kernel.antt =====
-- src/backend.ts: what a backend returns.
use trueform.Base.{Option, List}
use trueform.Base.Text.{Str}
use trueform.Base.JsMap.{JsMap}
use trueform.Base.Value.{Value}

pub data ObjectKind : Type 0 where
  solid surface face edge datum pattern profile unknown : ObjectKind

pub record KernelObject (N : Type 0) : Type 0 where
  pub id : Str
  pub kind : ObjectKind
  pub meta : JsMap (Value N)

pub data KernelSelectionLineage : Type 0 where
  created : KernelSelectionLineage
  modified : (from : Str) → KernelSelectionLineage
  split : (from branch : Str) → KernelSelectionLineage
  merged : (from : List Str) → KernelSelectionLineage

pub record KernelSelectionRecord : Type 0 where
  pub owner_key : Str
  pub created_by : Str
  pub role : Option Str
  pub slot : Option Str
  pub lineage : KernelSelectionLineage

pub data SelectionKind : Type 0 where
  face edge solid surface : SelectionKind

pub record KernelSelection (N : Type 0) : Type 0 where
  pub id : Str
  pub kind : SelectionKind
  pub meta : JsMap (Value N)
  pub record_of : Option KernelSelectionRecord

pub record KernelResult (N : Type 0) : Type 0 where
  pub outputs : JsMap (KernelObject N)
  pub selections : List (KernelSelection N)

pub record BackendCapabilities : Type 0 where
  pub name : Option Str
  pub feature_kinds : Option (List Str)
