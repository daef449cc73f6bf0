-- ===== src/Proto/Packet/FullData.antt =====
-- The packet's bytes that each parser is handed beside its own only show in errors (the type byte
-- apart): with other bytes there, a parser that succeeds gives the same value.
use twinleaf_rust.Shared.{
  ℕ, ◌≡◌, arith, Bytes, byte, Agrees, Agrees-bind, Agrees-refuse, Option, some, none,
}
use twinleaf_rust.Proto.Header
use twinleaf_rust.Proto.Vararg
use twinleaf_rust.Proto.LogMessage
use twinleaf_rust.Proto.Rpc.Request
use twinleaf_rust.Proto.Rpc.Reply
use twinleaf_rust.Proto.Rpc.ErrorReply
use twinleaf_rust.Proto.Heartbeat
use twinleaf_rust.Proto.LegacyStreamData
use twinleaf_rust.Proto.StreamData
use twinleaf_rust.Proto.Generic
use twinleaf_rust.Proto.Meta.Device
use twinleaf_rust.Proto.Meta.Stream
use twinleaf_rust.Proto.Meta.Segment
use twinleaf_rust.Proto.Meta.Column
use twinleaf_rust.Proto.Meta.Payload as Metadata
use twinleaf_rust.Proto.Payload

module _ (full full' : Bytes) where
  split-Agrees : (raw : Bytes) → Agrees (Vararg.split raw full) (Vararg.split raw full')
  unfolding Vararg.split
  split-Agrees raw a e = ground arith

  peel_string-Agrees :
      (raw : Bytes) (len : ℕ)
      → Agrees (Vararg.peel_string raw len full) (Vararg.peel_string raw len full')
  unfolding Vararg.peel_string
  peel_string-Agrees raw len a e = ground arith

  ruleset agreement = (Agrees-bind, split-Agrees, peel_string-Agrees, Agrees-refuse)

  device-Agrees :
      (raw : Bytes) → Agrees (Device.deserialize raw full) (Device.deserialize raw full')
  unfolding Device.deserialize
  device-Agrees raw = search agreement depth 12

  stream-Agrees :
      (raw : Bytes) → Agrees (Stream.deserialize raw full) (Stream.deserialize raw full')
  unfolding Stream.deserialize
  stream-Agrees raw = search agreement depth 12

  segment-Agrees :
      (raw : Bytes) → Agrees (Segment.deserialize raw full) (Segment.deserialize raw full')
  unfolding Segment.deserialize
  segment-Agrees raw = search agreement depth 12

  column-Agrees :
      (raw : Bytes) → Agrees (Column.deserialize raw full) (Column.deserialize raw full')
  unfolding Column.deserialize
  column-Agrees raw = search agreement depth 12

  read_content-Agrees :
      (t : Metadata.MetadataType) (raw : Bytes)
      → Agrees (Metadata.read_content t raw full) (Metadata.read_content t raw full')
  unfolding Metadata.read_content
  read_content-Agrees Metadata.device_type raw = search (Agrees-bind, device-Agrees)
  read_content-Agrees Metadata.stream_type raw = search (Agrees-bind, stream-Agrees)
  read_content-Agrees Metadata.segment_type raw = search (Agrees-bind, segment-Agrees)
  read_content-Agrees Metadata.column_type raw = search (Agrees-bind, column-Agrees)
  read_content-Agrees (Metadata.unknown_type t) raw = search (Agrees-bind, split-Agrees)

  metadata-Agrees :
      (raw : Bytes) → Agrees (Metadata.deserialize raw full) (Metadata.deserialize raw full')
  unfolding Metadata.deserialize
  metadata-Agrees raw = search (Agrees-bind, Agrees-refuse, read_content-Agrees)

  log-Agrees :
      (raw : Bytes) → Agrees (LogMessage.deserialize raw full) (LogMessage.deserialize raw full')
  unfolding LogMessage.deserialize
  log-Agrees raw a e = ground arith

  reply-Agrees : (raw : Bytes) → Agrees (Reply.deserialize raw full) (Reply.deserialize raw full')
  unfolding Reply.deserialize
  reply-Agrees raw a e = ground arith

  error-Agrees :
      (raw : Bytes) → Agrees (ErrorReply.deserialize raw full) (ErrorReply.deserialize raw full')
  unfolding ErrorReply.deserialize
  error-Agrees raw a e = ground arith

  heartbeat-Agrees :
      (raw : Bytes) → Agrees (Heartbeat.deserialize raw full) (Heartbeat.deserialize raw full')
  unfolding Heartbeat.deserialize
  heartbeat-Agrees raw a e = ground arith

  legacy-Agrees :
      (raw : Bytes)
      → Agrees (LegacyStreamData.deserialize raw full) (LegacyStreamData.deserialize raw full')
  unfolding LegacyStreamData.deserialize
  legacy-Agrees raw a e = ground arith

  request-Agrees :
      (raw : Bytes) → Agrees (Request.deserialize raw full) (Request.deserialize raw full')
  unfolding Request.deserialize Request.read_method
  request-Agrees raw a e = ground arith

  module _ (same : byte full 0 ≡ byte full' 0) where
    stream_data-Agrees :
        (raw : Bytes) → Agrees (StreamData.deserialize raw full) (StreamData.deserialize raw full')
    unfolding StreamData.deserialize
    stream_data-Agrees raw a e = ground arith

    generic-Agrees :
        (raw : Bytes) → Agrees (Generic.deserialize raw full) (Generic.deserialize raw full')
    unfolding Generic.deserialize
    generic-Agrees raw a e = ground arith

    pub read_as-Agrees :
        (t : Header.TioPktType) (id : Option ℕ) (raw : Bytes)
        → Agrees (Payload.read_as t id raw full) (Payload.read_as t id raw full')
    unfolding Payload.read_as
    read_as-Agrees Header.invalid id raw = λ a e. cc
    read_as-Agrees Header.reserved0 id raw = λ a e. cc
    read_as-Agrees Header.reserved1 id raw = λ a e. cc
    read_as-Agrees Header.reserved2 id raw = λ a e. cc
    read_as-Agrees Header.log id raw = search (Agrees-bind, log-Agrees)
    read_as-Agrees Header.rpc_req id raw = search (Agrees-bind, request-Agrees)
    read_as-Agrees Header.rpc_rep id raw = search (Agrees-bind, reply-Agrees)
    read_as-Agrees Header.rpc_error id raw = search (Agrees-bind, error-Agrees)
    read_as-Agrees Header.heartbeat id raw = search (Agrees-bind, heartbeat-Agrees)
    read_as-Agrees Header.legacy_timebase_update id raw = search (Agrees-bind, generic-Agrees)
    read_as-Agrees Header.legacy_source_update id raw = search (Agrees-bind, generic-Agrees)
    read_as-Agrees Header.legacy_stream_update id raw = search (Agrees-bind, generic-Agrees)
    read_as-Agrees Header.legacy_stream_data id raw = search (Agrees-bind, legacy-Agrees)
    read_as-Agrees Header.metadata id raw = search (Agrees-bind, metadata-Agrees)
    read_as-Agrees (Header.unknown_or_stream b) (some id) raw =
        search (Agrees-bind, stream_data-Agrees)
    read_as-Agrees (Header.unknown_or_stream b) none raw = search (Agrees-bind, generic-Agrees)
