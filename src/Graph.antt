-- ===== src/Graph.antt =====
-- src/graph.ts: the dependency graph of a part and its deterministic order.
pub mod Topo
pub mod References
pub mod Features
pub mod Inference
pub mod Selecting
pub mod Dependencies
pub mod Known
pub mod Anchors
pub mod Closed
pub mod Indexed
pub mod Join
pub mod Tests
