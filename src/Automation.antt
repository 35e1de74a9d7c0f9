-- ===== src/Automation.antt =====
-- The automations of amos-harness/src/automations: which automations an event starts, the outgoing
-- webhook, and the queue of its retries.
pub mod Types
pub mod Matching
pub mod Webhook
pub mod Retry
pub mod Codes
pub mod Started
pub mod Spending
pub mod Deliveries
pub mod Endings
pub mod Passes
pub mod Template
pub mod Substitution
mod Tests
