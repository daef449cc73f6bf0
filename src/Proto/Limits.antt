-- ===== src/Proto/Limits.antt =====
-- The errors and the sizes of twinleaf/src/tio/proto.rs.
use twinleaf_rust.Shared.{ℕ, ◌-◌, Bytes}
use twinleaf_rust.Text.{Text}

-- Each error but the first two carries the bytes it was found in.
pub data Error : Type 0 where
  need_more : Error
  text : Text → Error
  crc32 : Bytes → Error
  packet_too_big : Bytes → Error
  packet_too_small : Bytes → Error
  invalid_packet_type : Bytes → Error
  payload_too_big : Bytes → Error
  routing_too_big : Bytes → Error
  payload_too_small : Bytes → Error
  invalid_payload : Bytes → Error

abbrev pub tio_ptype_stream0 : ℕ
tio_ptype_stream0 = 128

abbrev pub tio_packet_header_size : ℕ
tio_packet_header_size = 4

abbrev pub tio_packet_max_routing_size : ℕ
tio_packet_max_routing_size = 8

abbrev pub tio_packet_max_total_size : ℕ
tio_packet_max_total_size = 512

abbrev pub tio_packet_max_payload_size : ℕ
tio_packet_max_payload_size =
    tio_packet_max_total_size - tio_packet_header_size - tio_packet_max_routing_size

abbrev pub too_small : Bytes → Error
too_small full_data = payload_too_small full_data
