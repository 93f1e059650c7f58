-- ===== src/Select.antt =====
-- The selectors: src/selection_slots.ts, src/selection_semantics.ts, src/selection_contract.ts,
-- src/resolution_context.ts and src/selectors.ts.
pub mod Context
pub mod Slots
pub mod Semantics
pub mod Contract
pub mod Names
pub mod Rebind
pub mod BooleanEdges
pub mod Scores
pub mod Picking
pub mod Matching
pub mod Named
pub mod Resolve
pub mod Surely
pub mod Found
pub mod Matched
pub mod Ranked
pub mod Sound
pub mod Unique
pub mod Pick
pub mod Bounds
pub mod Exact
pub mod Symmetric
pub mod Plain
pub mod Signature
pub mod Invariants
pub mod Distinct
pub mod Tests
