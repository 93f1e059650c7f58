-- ===== src/Params.antt =====
-- src/params.ts: the parameters of a part.
pub mod Expressions
pub mod Context
pub mod Fuel
pub mod Tests
pub mod Pure
pub mod Visits
pub mod Solution
