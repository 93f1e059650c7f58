-- ===== src/Execute.antt =====
-- src/executor.ts: building a part feature by feature, in full or from a previous build.
pub mod Merge
pub mod Closure
pub mod Plan
pub mod Build
pub mod Tests
