-- ===== src/Schema.antt =====
-- Runtime-defined collections and their records, amos-harness/src/schema.rs.
pub mod Types
pub mod Validation
pub mod Collections
pub mod Records
pub mod Queries
pub mod Kinds
pub mod Conforms
pub mod Defaults
pub mod Stored
pub mod Announced
pub mod Quoting
pub mod Contained
pub mod Found
pub mod Requests
pub mod Links
mod Tests
