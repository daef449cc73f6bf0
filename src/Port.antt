-- ===== src/Port.antt =====
-- The ports: twinleaf/src/tio/port.rs and the files under twinleaf/src/tio/port.
pub mod Errors
pub mod IoBuf
pub mod Tcp
pub mod Udp
pub mod Serial
pub mod Url
pub mod Poller
pub mod Channel
pub mod Example
mod Tests
