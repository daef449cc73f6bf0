-- ===== src/Proto/Tests.antt =====
-- Runs of the protocol's parsers and serialisers on concrete packets.
use twinleaf_rust.Shared.{
  ℕ, ◌≤◌, ◌<◌, ◌≡◌, ◌↔◌, refl, [], ◌∷◌, ◌++◌, arith, length, length-replicate, replicate, Bytes, ok,
  err, some,
}
use twinleaf_rust.Text.{Text, IsAscii-IsUtf8}
use twinleaf_rust.Proto.Vararg.{append_string, checked_u8_size, extend}
use twinleaf_rust.Proto.Meta.Device
use twinleaf_rust.Proto.Meta.Payload as Metadata
use twinleaf_rust.Proto.Meta.Payload.{MetadataPayload, device}
use twinleaf_rust.Proto.Meta.Payload.RoundTrip.{IsContent, Reads, serialize-Reads}
use twinleaf_rust.Proto.Limits.{need_more, invalid_packet_type}
use twinleaf_rust.Proto.Header
use twinleaf_rust.Proto.Header.{TioPktHdr}
use twinleaf_rust.Proto.Header.Bounds.{Accepts, header_of, header_taken_iff}
use twinleaf_rust.Proto.Route
use twinleaf_rust.Proto.Route.{DeviceRoute, relative_route, absolute_route}
use twinleaf_rust.Proto.Route.Scope.{relative_route_iff}
use twinleaf_rust.Proto.Route.Display.{from_str, show, from_str-show}
use twinleaf_rust.Proto.Rpc.Request.{RpcRequestPayload, by_name}
use twinleaf_rust.Proto.Rpc.Reply
use twinleaf_rust.Proto.Rpc.Reply.{RpcReplyPayload}
use twinleaf_rust.Proto.Payload
use twinleaf_rust.Proto.Payload.{Payload, rpc_request, rpc_reply}
use twinleaf_rust.Proto.Payload.Size.{serialize_long_name}
use twinleaf_rust.Proto.Packet
use twinleaf_rust.Proto.Packet.{Packet}
use twinleaf_rust.Proto.Packet.RoundTrip.{packet_round_trip, length-serialize}
use twinleaf_rust.Proto.Packet.Prefix.{deserialize_front_waits}

-- An RPC reply over two hops.
abbrev reply_packet : Packet
reply_packet = record {
  payload = rpc_reply (record { id = 258; reply = 7 ∷ [] });
  routing = record { route = 3 ∷ 5 ∷ [] };
  ttl = 4;
}

abbrev reply_bytes : Bytes
reply_bytes = 3 ∷ 2 ∷ 3 ∷ 0 ∷ 2 ∷ 1 ∷ 7 ∷ 5 ∷ 3 ∷ []

serialize_reply : Packet.serialize reply_packet ≡ ok reply_bytes
unfolding Packet.serialize Payload.serialize Reply.serialize Route.serialize
serialize_reply = refl

packet_round_trip_example :
    Packet.deserialize (reply_bytes ++ (9 ∷ [])) ≡ some (ok (record reply_packet { ttl = 0 }, 9))
packet_round_trip_example =
    packet_round_trip reply_packet reply_bytes (9 ∷ []) serialize_reply (omega arith)

parsed_reply : Packet.deserialize reply_bytes ≡ some (ok (record reply_packet { ttl = 0 }, 9))
parsed_reply = packet_round_trip reply_packet reply_bytes [] serialize_reply (omega arith)

deserialize_front_waits_example : Packet.deserialize (3 ∷ 2 ∷ 3 ∷ 0 ∷ 2 ∷ []) ≡ some (err need_more)
deserialize_front_waits_example =
    deserialize_front_waits (3 ∷ 2 ∷ 3 ∷ 0 ∷ 2 ∷ []) (1 ∷ 7 ∷ 5 ∷ 3 ∷ [])
      (record reply_packet { ttl = 0 }) 9 parsed_reply (omega arith)

length-serialize_example : (4 ≤ 9) × (9 ≤ 512)
length-serialize_example = length-serialize reply_packet reply_bytes serialize_reply tt

reserved_type : Packet.deserialize (9 ∷ []) ≡ some (err (invalid_packet_type (9 ∷ [])))
unfolding Packet.deserialize Header.deserialize Header.pkt_type_from
reserved_type = refl

header_taken_iff_example :
    (Header.deserialize reply_bytes ≡ ok (header_of reply_bytes))
    ↔ Accepts reply_bytes (header_of reply_bytes)
header_taken_iff_example = header_taken_iff reply_bytes (header_of reply_bytes)

relative_route_iff_example :
    (relative_route (record { route = 3 ∷ [] }) (record { route = 3 ∷ 5 ∷ [] })
      ≡ ok (record { route = 5 ∷ [] }))
    ↔ (absolute_route (record { route = 3 ∷ [] }) (record { route = 5 ∷ [] })
        ≡ record { route = 3 ∷ 5 ∷ [] })
relative_route_iff_example =
    relative_route_iff (record { route = 3 ∷ [] }) (record { route = 3 ∷ 5 ∷ [] })
      (record { route = 5 ∷ [] })

show_route : show (record { route = 0 ∷ 255 ∷ [] }) ≡ b'/' ∷ b'0' ∷ b'/' ∷ b'2' ∷ b'5' ∷ b'5' ∷ []
unfolding show
show_route = refl

from_str-show_example :
    from_str (show (record { route = 0 ∷ 255 ∷ [] })) ≡ ok (record { route = 0 ∷ 255 ∷ [] })
from_str-show_example = from_str-show (record { route = 0 ∷ 255 ∷ [] }) (omega arith)

-- `split` in a text without segments, and a segment that is no number.
from_str_refused : from_str (b'/' ∷ b'1' ∷ b'/' ∷ b'x' ∷ []) ≡ err tt
unfolding from_str
from_str_refused = refl

abbrev name_request : Bytes → RpcRequestPayload
name_request n = record { id = 1; method = by_name n; arg = [] }

-- A name of 64 KiB: its length is cut to 0.
long_name : Text
long_name = replicate 65536 b'a'

length-long_name : length long_name ≡ 65536
unfolding long_name
length-long_name = length-replicate {A = ℕ} 65536 b'a'

serialize_long_name_example :
    (raw : Bytes) × (Payload.serialize (rpc_request (name_request long_name)) ≡ ok raw)
    × (length long_name < length raw)
serialize_long_name_example =
    serialize_long_name (name_request long_name) long_name refl (omega (arith, length-long_name))
      (omega (arith, length-long_name))

-- A device's metadata with a byte of either extension.
abbrev extended_device : MetadataPayload
extended_device = record {
  content = device (record {
    serial_number = 65 ∷ [];
    firmware_hash = [];
    n_streams = 1;
    session_id = 7;
    name = [];
  });
  flags = 2;
  unknown_fixed = 5 ∷ [];
  unknown_varlen = 6 ∷ [];
}

abbrev extended_bytes : Bytes
extended_bytes = 11 ∷ 0 ∷ 14 ∷ 0 ∷ 1 ∷ 2 ∷ 10 ∷ 0 ∷ 7 ∷ 0 ∷ 0 ∷ 0 ∷ 1 ∷ 0 ∷ 1 ∷ 5 ∷ 65 ∷ 6 ∷ []

serialize_extended : Metadata.serialize extended_device ≡ ok extended_bytes
unfolding Metadata.serialize Metadata.write_content Metadata.metadata_type_into Device.serialize
    append_string checked_u8_size extend Header.serialize_new Header.serialize_new_raw
    Header.pkt_type_into
serialize_extended = refl

extended-IsContent : IsContent extended_device.content (5 ∷ [])
extended-IsContent = record {
  session_range = omega arith;
  serial_utf8 = IsAscii-IsUtf8 (65 ∷ []) (omega arith);
  firmware_utf8 = IsAscii-IsUtf8 [] tt;
  name_utf8 = IsAscii-IsUtf8 [] tt;
}

serialize-Reads_example : (body : Bytes) × Reads extended_device extended_bytes body
serialize-Reads_example =
    serialize-Reads extended_device extended_bytes serialize_extended extended-IsContent
