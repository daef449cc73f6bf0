-- ===== src/Port/Example.antt =====
-- A packet that the ports' tests carry, and its bytes.
use twinleaf_rust.Shared.{◌≡◌, refl, [], ◌∷◌, Bytes, ok}
use twinleaf_rust.Proto.Packet
use twinleaf_rust.Proto.Packet.{Packet}
use twinleaf_rust.Proto.Payload
use twinleaf_rust.Proto.Payload.{rpc_reply}
use twinleaf_rust.Proto.Rpc.Reply
use twinleaf_rust.Proto.Route

abbrev pub reply_packet : Packet
reply_packet = record {
  payload = rpc_reply (record { id = 258; reply = 7 ∷ [] });
  routing = record { route = [] };
  ttl = 0;
}

abbrev pub reply_bytes : Bytes
reply_bytes = 3 ∷ 0 ∷ 3 ∷ 0 ∷ 2 ∷ 1 ∷ 7 ∷ []

pub serialize_reply : Packet.serialize reply_packet ≡ ok reply_bytes
unfolding Packet.serialize Payload.serialize Reply.serialize Route.serialize
serialize_reply = refl
