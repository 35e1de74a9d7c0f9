-- ===== src/Revisions.antt =====
-- Entity revisions and template subscriptions of amos-harness/src/revisions.rs.
pub mod Types
pub mod Diff
pub mod Service
pub mod Templates
pub mod Restore
pub mod History
pub mod Requests
pub mod Log
pub mod Refinement
pub mod Updates
mod Tests
