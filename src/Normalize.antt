-- ===== src/Normalize.antt =====
-- src/ir_normalize.ts: the scalars of a part are evaluated, and its selectors normalized.
pub mod Selectors
pub mod Scalars
pub mod Paths
pub mod Sketches
pub mod Bodies
pub mod Faces
pub mod Details
pub mod Features
pub mod Numeric
pub mod Parts
pub mod Corresponding
pub mod Staging
pub mod Repeats
pub mod Tests
