-- ===== src/Proto/Rpc.antt =====
-- RPC payloads: twinleaf/src/tio/proto/rpc.rs.
pub mod ErrorCode
pub mod Request
pub mod Reply
pub mod ErrorReply
