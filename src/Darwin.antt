-- ===== src/Darwin.antt =====
-- The Darwinian experiments of amos-packages/amos-autoresearch/src/darwinian: a changed prompt is
-- tried, judged by the agent's fitness, and kept or taken back.
pub mod Types
pub mod Evaluator
pub mod Latest
pub mod Judgement
pub mod Repeats
pub mod Reverts
mod Tests
