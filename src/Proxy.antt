-- ===== src/Proxy.antt =====
-- The proxy: twinleaf/src/tio/proxy_core.rs.
pub mod Client
pub mod Rpcs
pub mod Rates
mod Tests
pub mod Port
pub mod Interface
pub mod Event
pub mod Core
