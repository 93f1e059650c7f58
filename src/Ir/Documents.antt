-- ===== src/Ir/Documents.antt =====
-- src/ir.ts: a document, and the context that it is built in. The schema and the version of a document
-- are constants, and its assemblies and capabilities are data that no compilation reads.
use mathlib.Core.Option.{Option}
use mathlib.Core.List.{List}
use trueform.Base.Text.{Str}
use trueform.Ir.Scalars.{LengthUnit}
use trueform.Ir.Parts.{IntentPart, FtiConstraint, IntentAssertion}

pub record BuildKernel : Type 0 where
  pub name : Str
  pub version : Str

pub record BuildTolerance (N : Type 0) : Type 0 where
  pub linear : N
  pub angular : N

pub record BuildContext (N : Type 0) : Type 0 where
  pub units : LengthUnit
  pub kernel : BuildKernel
  pub tolerance : BuildTolerance N

pub record IntentDocument (N : Type 0) : Type 0 where
  pub id : Str
  pub parts : List (IntentPart N)
  pub constraints : Option (List (FtiConstraint N))
  pub assertions : Option (List (IntentAssertion N))
  pub context : BuildContext N
