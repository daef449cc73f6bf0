-- ===== src/Proto/Packet.antt =====
-- `Packet` of twinleaf/src/tio/proto.rs.
mod FullData
pub mod Prefix
pub mod RoundTrip
use twinleaf_rust.Shared.{ℕ, Bytes, slice, Result, ok, err, ◌>>=◌, Option, none, some}
use twinleaf_rust.Proto.Limits.{Error}
use twinleaf_rust.Proto.Header
use twinleaf_rust.Proto.Header.{TioPktHdr, packet_size, payload_offset, routing_offset}
use twinleaf_rust.Proto.Route
use twinleaf_rust.Proto.Route.{DeviceRoute}
use twinleaf_rust.Proto.Payload
use twinleaf_rust.Proto.Payload.{Payload}

pub record Packet : Type 0 where
  pub payload : Payload
  pub routing : DeviceRoute
  pub ttl : ℕ

-- `none` is the panic of an `expect` that fails.
unfoldable pub with_route :
    TioPktHdr → Payload → Result DeviceRoute (Unit {0}) → Option (Result (Packet × ℕ) Error)
with_route hdr payload (ok routing) =
    let pkt : Packet = record { payload = payload; routing = routing; ttl = Header.ttl hdr } in
    some (ok (pkt, packet_size hdr))
with_route hdr payload (err e) = none

unfoldable pub with_payload :
    Bytes → TioPktHdr → Result Payload Error → Option (Result (Packet × ℕ) Error)
unfolding with_route
with_payload raw hdr (err e) = some (err e)
with_payload raw hdr (ok payload) =
    with_route hdr payload (Route.from_bytes (slice (routing_offset hdr) (packet_size hdr) raw))

unfoldable pub with_header : Bytes → Result TioPktHdr Error → Option (Result (Packet × ℕ) Error)
unfolding with_payload
with_header raw (err e) = some (err e)
with_header raw (ok hdr) =
    with_payload raw hdr
      (Payload.deserialize hdr (slice (payload_offset hdr) (routing_offset hdr) raw) raw)

unfoldable pub deserialize : Bytes → Option (Result (Packet × ℕ) Error)
unfolding with_header
deserialize raw = with_header raw (Header.deserialize raw)

unfoldable pub serialize : Packet → Result Bytes (Unit {0})
serialize p = do ret ← Payload.serialize p.payload; Route.serialize p.routing ret
