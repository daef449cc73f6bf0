-- ===== src/Proto/Header.antt =====
-- The packet types and the four-byte packet header: `TioPktType` and `TioPktHdr` of
-- twinleaf/src/tio/proto.rs.
pub mod Bounds
use twinleaf_rust.Shared.{
  ℕ, ◌+◌, ◌-◌, ◌/◌, ◌≡◌, Bool, true, false, not, Option, none, some, [], ◌∷◌, ◌++◌, arith, ltb, leb,
  ◌==◌, if◌then◌else◌, length, Bytes, byte, u16_from_le, u16_to_le, bit_and, Result, ok, err,
}
use twinleaf_rust.Proto.Limits.{
  Error, need_more, invalid_packet_type, payload_too_big, routing_too_big, tio_ptype_stream0,
  tio_packet_max_routing_size, tio_packet_max_payload_size,
}

pub data TioPktType : Type 0 where
  invalid log rpc_req rpc_rep rpc_error heartbeat : TioPktType
  legacy_timebase_update legacy_source_update legacy_stream_update : TioPktType
  reserved0 reserved1 metadata reserved2 legacy_stream_data : TioPktType
  unknown_or_stream : ℕ → TioPktType

-- The conversions that `num_enum` derives from the discriminants.
unfoldable pub pkt_type_from : ℕ → TioPktType
pkt_type_from b =
    if b == 0
    then invalid
    else if b == 1
    then log
    else if b == 2
    then rpc_req
    else if b == 3
    then rpc_rep
    else if b == 4
    then rpc_error
    else if b == 5
    then heartbeat
    else if b == 6
    then legacy_timebase_update
    else if b == 7
    then legacy_source_update
    else if b == 8
    then legacy_stream_update
    else if b == 9
    then reserved0
    else if b == 10
    then reserved1
    else if b == 11
    then metadata
    else if b == 13
    then reserved2
    else if b == 128
    then legacy_stream_data
    else unknown_or_stream b

unfoldable pub pkt_type_into : TioPktType → ℕ
pkt_type_into invalid = 0
pkt_type_into log = 1
pkt_type_into rpc_req = 2
pkt_type_into rpc_rep = 3
pkt_type_into rpc_error = 4
pkt_type_into heartbeat = 5
pkt_type_into legacy_timebase_update = 6
pkt_type_into legacy_source_update = 7
pkt_type_into legacy_stream_update = 8
pkt_type_into reserved0 = 9
pkt_type_into reserved1 = 10
pkt_type_into metadata = 11
pkt_type_into reserved2 = 13
pkt_type_into legacy_stream_data = 128
pkt_type_into (unknown_or_stream b) = b

pub pkt_type_into-from : (b : ℕ) → pkt_type_into (pkt_type_from b) ≡ b
unfolding pkt_type_from pkt_type_into
pkt_type_into-from b = ground arith

unfoldable pub pkt_type_valid : TioPktType → Bool
pkt_type_valid invalid = false
pkt_type_valid reserved0 = false
pkt_type_valid reserved1 = false
pkt_type_valid reserved2 = false
pkt_type_valid _ = true

pub record TioPktHdr : Type 0 where
  pub pkt_type : ℕ
  pub routing_size_and_ttl : ℕ
  pub payload_size : ℕ

-- `size_of::<TioPktHdr>()`
abbrev pub hdr_size : ℕ
hdr_size = 4

unfoldable pub ptype : TioPktHdr → TioPktType
ptype h = pkt_type_from h.pkt_type

unfoldable pub stream_id : TioPktHdr → Option ℕ
stream_id h =
    if leb tio_ptype_stream0 h.pkt_type then some (h.pkt_type - tio_ptype_stream0) else none

unfoldable pub ttl : TioPktHdr → ℕ
ttl h = h.routing_size_and_ttl / 16

unfoldable pub payload_offset : TioPktHdr → ℕ
payload_offset h = hdr_size

unfoldable pub routing_offset : TioPktHdr → ℕ
unfolding payload_offset
routing_offset h = payload_offset h + h.payload_size

unfoldable pub routing_size : TioPktHdr → ℕ
routing_size h = bit_and h.routing_size_and_ttl 0x0F

unfoldable pub packet_size : TioPktHdr → ℕ
unfolding routing_offset routing_size
packet_size h = routing_offset h + routing_size h

unfoldable pub deserialize : Bytes → Result TioPktHdr Error
unfolding pkt_type_valid packet_size
deserialize raw =
    if ltb (length raw) 1
    then err need_more
    else let packet_type = pkt_type_from (byte raw 0) in
      if not (pkt_type_valid packet_type)
      then err (invalid_packet_type raw)
      else if ltb (length raw) hdr_size
      then err need_more
      else let pkt_hdr : TioPktHdr = record {
        pkt_type = pkt_type_into packet_type;
        routing_size_and_ttl = byte raw 1;
        payload_size = u16_from_le (byte raw 2) (byte raw 3);
      } in
        if ltb tio_packet_max_routing_size (routing_size pkt_hdr)
        then err (routing_too_big raw)
        else if ltb tio_packet_max_payload_size pkt_hdr.payload_size
        then err (payload_too_big raw)
        else if ltb (length raw) (packet_size pkt_hdr)
        then err need_more
        else ok pkt_hdr

unfoldable pub serialize_new_raw : ℕ → ℕ → ℕ → Bytes
serialize_new_raw ptype rsize psize = (ptype ∷ rsize ∷ []) ++ u16_to_le psize

unfoldable pub serialize_new : TioPktType → ℕ → ℕ → Bytes
unfolding serialize_new_raw pkt_type_into
serialize_new ptype rsize psize = serialize_new_raw (pkt_type_into ptype) rsize psize
