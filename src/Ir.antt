-- ===== src/Ir.antt =====
-- src/ir.ts and src/ir_contract.ts: the types of an intent document, one data type or record for each
-- type of the source. `N` is the type of JavaScript's numbers. A field `kind` is the constructor that
-- holds the record, and an optional field is an `Option`.
pub mod Scalars
pub mod Selectors
pub mod Sketches
pub mod Paths
pub mod Bodies
pub mod Faces
pub mod Details
pub mod Features
pub mod Parts
pub mod Documents
