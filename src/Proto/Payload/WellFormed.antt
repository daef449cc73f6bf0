-- ===== src/Proto/Payload/WellFormed.antt =====
-- The payloads that are read back as they were, and what it takes for that.
use twinleaf_rust.Shared.{ℕ, ◌≤◌, ◌<◌, ◌≡◌, ◌⊎◌, true, false, [], length, Bytes, byte, ok, IsU16}
use twinleaf_rust.Proto.Limits.{tio_packet_max_payload_size}
use twinleaf_rust.Proto.Header
use twinleaf_rust.Proto.Header.{
  TioPktHdr, TioPktType, ptype, stream_id, pkt_type_from, pkt_type_into, pkt_type_valid,
}
use twinleaf_rust.Proto.Frame.{framed}
use twinleaf_rust.Proto.LogMessage
use twinleaf_rust.Proto.Rpc.Request
use twinleaf_rust.Proto.Rpc.ErrorReply
use twinleaf_rust.Proto.Heartbeat
use twinleaf_rust.Proto.LegacyStreamData
use twinleaf_rust.Proto.Meta.Payload.{MetadataPayload}
use twinleaf_rust.Proto.Meta.Payload.RoundTrip.{IsContent, is_known}
use twinleaf_rust.Proto.StreamData
use twinleaf_rust.Proto.Payload.{
  Payload, log_message, rpc_request, rpc_reply, rpc_error, heartbeat, legacy_timebase_update,
  legacy_source_update, legacy_stream_update, legacy_stream_data, metadata, stream_data, unknown,
  deserialize,
}

-- The types that are carried as generic payloads.
abbrev pub IsOpaque : ℕ → Type 0
IsOpaque ty =
    ((6 ≤ ty) × (ty ≤ 8)) ⊎ ((pkt_type_from ty ≡ Header.unknown_or_stream ty) × (ty < 128))

-- A known kind of metadata carries no unknown variable part.
abbrev pub IsPlain : MetadataPayload → Type 0
IsPlain p = (p.unknown_varlen ≡ []) ⊎ (is_known p.content ≡ false)

abbrev pub IsWellFormed : Payload → Type 0
IsWellFormed (log_message p) = LogMessage.IsValid p
IsWellFormed (rpc_request p) = Request.IsValid p
IsWellFormed (rpc_reply p) = IsU16 p.id
IsWellFormed (rpc_error p) = ErrorReply.IsValid p
IsWellFormed (heartbeat p) = Heartbeat.IsValid p
IsWellFormed (legacy_stream_data p) = LegacyStreamData.IsValid p
IsWellFormed (metadata p) = IsContent p.content p.unknown_fixed × IsPlain p
IsWellFormed (stream_data p) = StreamData.IsValid p
IsWellFormed (unknown p) = IsOpaque p.packet_type
IsWellFormed (legacy_timebase_update p) = Unit
IsWellFormed (legacy_source_update p) = Unit
IsWellFormed (legacy_stream_update p) = Unit

-- `raw` is a frame whose body is read as `p`, whatever packet it stands at the front of.
pub record Framing (p : Payload) (raw : Bytes) : Type 0 where
  pub ty : ℕ
  pub body : Bytes
  pub shape : raw ≡ framed ty body
  pub fits : length body ≤ tio_packet_max_payload_size
  pub type_valid : pkt_type_valid (pkt_type_from ty) ≡ true
  pub reads :
      (h : TioPktHdr) (full_data : Bytes)
      → h.pkt_type ≡ ty
      → byte full_data 0 ≡ ty
      → deserialize h body full_data ≡ ok p
