-- ===== src/Proto/Payload.antt =====
-- `Payload` of twinleaf/src/tio/proto.rs.
pub mod WellFormed
pub mod RoundTrip
pub mod Size
use twinleaf_rust.Shared.{ℕ, Option, none, some, Bytes, Result, ok, err, ◌>>=◌}
use twinleaf_rust.Proto.Limits.{Error, invalid_packet_type}
use twinleaf_rust.Proto.Header
use twinleaf_rust.Proto.Header.{TioPktHdr, TioPktType, ptype, stream_id}
use twinleaf_rust.Proto.LogMessage
use twinleaf_rust.Proto.LogMessage.{LogMessagePayload}
use twinleaf_rust.Proto.Rpc.Request
use twinleaf_rust.Proto.Rpc.Request.{RpcRequestPayload}
use twinleaf_rust.Proto.Rpc.Reply
use twinleaf_rust.Proto.Rpc.Reply.{RpcReplyPayload}
use twinleaf_rust.Proto.Rpc.ErrorReply
use twinleaf_rust.Proto.Rpc.ErrorReply.{RpcErrorPayload}
use twinleaf_rust.Proto.Heartbeat
use twinleaf_rust.Proto.Heartbeat.{HeartbeatPayload}
use twinleaf_rust.Proto.LegacyInfo.{
  LegacyTimebaseInfoPayload, LegacySourceInfoPayload, LegacyStreamInfoPayload,
}
use twinleaf_rust.Proto.LegacyStreamData
use twinleaf_rust.Proto.LegacyStreamData.{LegacyStreamDataPayload}
use twinleaf_rust.Proto.Meta.Payload as Metadata
use twinleaf_rust.Proto.Meta.Payload.{MetadataPayload}
use twinleaf_rust.Proto.StreamData
use twinleaf_rust.Proto.StreamData.{StreamDataPayload}
use twinleaf_rust.Proto.Generic
use twinleaf_rust.Proto.Generic.{GenericPayload}

pub data Payload : Type 0 where
  log_message : LogMessagePayload → Payload
  rpc_request : RpcRequestPayload → Payload
  rpc_reply : RpcReplyPayload → Payload
  rpc_error : RpcErrorPayload → Payload
  heartbeat : HeartbeatPayload → Payload
  legacy_timebase_update : LegacyTimebaseInfoPayload → Payload
  legacy_source_update : LegacySourceInfoPayload → Payload
  legacy_stream_update : LegacyStreamInfoPayload → Payload
  legacy_stream_data : LegacyStreamDataPayload → Payload
  metadata : MetadataPayload → Payload
  stream_data : StreamDataPayload → Payload
  unknown : GenericPayload → Payload

unfoldable pub serialize : Payload → Result Bytes (Unit {0})
serialize (log_message p) = LogMessage.serialize p
serialize (rpc_request p) = Request.serialize p
serialize (rpc_reply p) = Reply.serialize p
serialize (rpc_error p) = ErrorReply.serialize p
serialize (heartbeat p) = Heartbeat.serialize p
serialize (metadata p) = Metadata.serialize p
serialize (legacy_stream_data p) = LegacyStreamData.serialize p
serialize (stream_data p) = StreamData.serialize p
serialize (unknown p) = Generic.serialize p
serialize _ = err tt

read_generic : Bytes → Bytes → Result Payload Error
read_generic raw full_data = do p ← Generic.deserialize raw full_data; ok (unknown p)

unfoldable pub read_as : TioPktType → Option ℕ → Bytes → Bytes → Result Payload Error
unfolding read_generic
read_as Header.invalid id raw full_data = err (invalid_packet_type full_data)
read_as Header.reserved0 id raw full_data = err (invalid_packet_type full_data)
read_as Header.reserved1 id raw full_data = err (invalid_packet_type full_data)
read_as Header.reserved2 id raw full_data = err (invalid_packet_type full_data)
read_as Header.log id raw full_data = do
  p ← LogMessage.deserialize raw full_data
  ok (log_message p)
read_as Header.rpc_req id raw full_data = do
  p ← Request.deserialize raw full_data
  ok (rpc_request p)
read_as Header.rpc_rep id raw full_data = do p ← Reply.deserialize raw full_data; ok (rpc_reply p)
read_as Header.rpc_error id raw full_data = do
  p ← ErrorReply.deserialize raw full_data
  ok (rpc_error p)
read_as Header.heartbeat id raw full_data = do
  p ← Heartbeat.deserialize raw full_data
  ok (heartbeat p)
read_as Header.legacy_timebase_update id raw full_data = read_generic raw full_data
read_as Header.legacy_source_update id raw full_data = read_generic raw full_data
read_as Header.legacy_stream_update id raw full_data = read_generic raw full_data
read_as Header.legacy_stream_data id raw full_data = do
  p ← LegacyStreamData.deserialize raw full_data
  ok (legacy_stream_data p)
read_as Header.metadata id raw full_data = do
  p ← Metadata.deserialize raw full_data
  ok (metadata p)
read_as (Header.unknown_or_stream b) (some id) raw full_data = do
  p ← StreamData.deserialize raw full_data
  ok (stream_data p)
read_as (Header.unknown_or_stream b) none raw full_data = read_generic raw full_data

-- The match is on the header's type; an unknown one is told from a stream by its number.
unfoldable pub deserialize : TioPktHdr → Bytes → Bytes → Result Payload Error
unfolding read_as ptype stream_id
deserialize hdr raw_payload full_data = read_as (ptype hdr) (stream_id hdr) raw_payload full_data
