-- ===== src/Proto/Meta.antt =====
-- Device metadata: twinleaf/src/tio/proto/meta.rs.
pub mod Device
pub mod Stream
pub mod Segment
pub mod Column
pub mod Payload
