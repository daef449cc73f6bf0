-- ===== src/Proto/Heartbeat.antt =====
-- `HeartbeatPayload` of twinleaf/src/tio/proto.rs.
use twinleaf_rust.Shared.{
  ℕ, ◌≡◌, ◌≢◌, refl, ap, ◌++◌, arith, ltb, ◌==◌, if◌then◌else◌, length, Bytes, byte, u32_from_le,
  u32_to_le, u32_le, IsU32, Result, ok, err, ◌%◌,
}
use twinleaf_rust.Proto.Limits.{Error, tio_packet_max_payload_size}
use twinleaf_rust.Proto.Header.{heartbeat, serialize_new, pkt_type_into}
use twinleaf_rust.Proto.Frame.{frame, serialize_new-frame}

pub data HeartbeatPayload : Type 0 where
  session : ℕ → HeartbeatPayload
  any : Bytes → HeartbeatPayload

unfoldable pub deserialize : Bytes → Bytes → Result HeartbeatPayload Error
deserialize raw full_data =
    if length raw == 4
    then ok (session (u32_from_le (byte raw 0) (byte raw 1) (byte raw 2) (byte raw 3)))
    else ok (any raw)

abbrev pub body : HeartbeatPayload → Bytes
body (session s) = u32_to_le s
body (any payload) = payload

abbrev pub payload_size : HeartbeatPayload → ℕ
payload_size (session s) = 4
payload_size (any payload) = length payload

unfoldable pub serialize : HeartbeatPayload → Result Bytes (Unit {0})
unfolding serialize_new
serialize p =
    if ltb tio_packet_max_payload_size (payload_size p)
    then err tt
    else ok (serialize_new heartbeat 0 (payload_size p % 65536) ++ body p)

-- Four bytes are read as a session, so the other form must have another length.
abbrev pub IsValid : HeartbeatPayload → Type 0
IsValid (session s) = IsU32 s
IsValid (any payload) = length payload ≢ 4

pub serialize-frame :
    (p : HeartbeatPayload) → serialize p ≡ frame (pkt_type_into heartbeat) (body p)
unfolding serialize
serialize-frame (session s) = serialize_new-frame heartbeat _ (u32_to_le s) refl
serialize-frame (any payload) = serialize_new-frame heartbeat _ payload refl

pub deserialize-body :
    (p : HeartbeatPayload) (full_data : Bytes) → IsValid p → deserialize (body p) full_data ≡ ok p
unfolding deserialize
deserialize-body (session s) full_data v = ap (λ t. ok (session t)) (u32_le s v)
deserialize-body (any payload) full_data v = ground arith
