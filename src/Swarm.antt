-- ===== src/Swarm.antt =====
-- Swarms of agents: the manager and the router of amos-packages/amos-autoresearch/src/swarm.
pub mod Types
pub mod Manager
pub mod Router
pub mod Listed
pub mod Strategies
pub mod Capacity
pub mod Family
pub mod Routed
pub mod Acyclic
mod Tests
