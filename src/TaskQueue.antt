-- ===== src/TaskQueue.antt =====
-- The task queue of amos-harness/src/task_queue/mod.rs: internal tasks and external bounties in the
-- table `tasks`, messages between agents and the platform in `task_messages`, and the broadcast of
-- notifications.
pub mod Types
pub mod Rows
pub mod Queue
pub mod Messages
pub mod Codes
pub mod Claims
pub mod Listing
pub mod Lifecycle
pub mod Invariant
pub mod Inbox
mod Tests
