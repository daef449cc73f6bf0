-- ===== src/Proto.antt =====
-- The tio wire protocol: twinleaf/src/tio/proto.rs and the files under twinleaf/src/tio/proto.
pub mod Limits
pub mod Header
pub mod Route
pub mod Frame
pub mod LogMessage
pub mod Heartbeat
pub mod StreamData
pub mod Generic
pub mod LegacyStreamData
pub mod Rpc
pub mod Vararg
pub mod DataType
pub mod Meta
pub mod LegacyInfo
pub mod Payload
pub mod Packet
pub mod Updates
mod Tests
