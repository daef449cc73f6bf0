-- ===== src/Data.antt =====
-- The sample parser: twinleaf/src/data/mod.rs.
pub mod Stop
pub mod Requests
pub mod Metarep
pub mod Column
pub mod Stream
pub mod Equal
pub mod Parser
pub mod Device
mod Tests
