-- ===== src/Token.antt =====
-- The token economy of amos-core/src/token: constants, decay of stakes, daily emission, points,
-- distribution of the protocol fee, and the trust levels of external agents.
pub mod Economics
pub mod Decay
pub mod Emission
pub mod Points
pub mod Revenue
pub mod Trust
