-- ===== src/JobQueue.antt =====
-- src/job_queue.ts: `InMemoryJobQueue`. A job object is shared by the queue, by the map of jobs and by
-- the callbacks of its timer and its task, so jobs stand in a heap, and a handle is the place of a
-- job there. Jobs are allocated in order and are never freed, though the map forgets them.
pub mod Jobs
pub mod Pump
pub mod Retention
pub mod Events
pub mod Handles
pub mod Invariant
pub mod Pumping
pub mod Finishing
pub mod Ready
pub mod Steps
pub mod Outcomes
pub mod Final
pub mod Tests
pub mod Stats
pub mod Kept
