-- ===== src/Proto/Generic.antt =====
-- `GenericPayload` of twinleaf/src/tio/proto.rs: a payload that is carried as it is.
use twinleaf_rust.Shared.{
  ℕ, ◌≡◌, refl, ◌++◌, ltb, if◌then◌else◌, length, Bytes, byte, Result, ok, err, ◌%◌, arith,
}
use twinleaf_rust.Proto.Limits.{Error, tio_packet_max_payload_size}
use twinleaf_rust.Proto.Header.{serialize_new_raw}
use twinleaf_rust.Proto.Frame.{frame, serialize_new_raw-frame}

pub record GenericPayload : Type 0 where
  pub packet_type : ℕ
  pub payload : Bytes

-- `full_data` is a whole packet, so it is not empty.
unfoldable pub deserialize : Bytes → Bytes → Result GenericPayload Error
deserialize raw full_data = ok (record { packet_type = byte full_data 0; payload = raw })

unfoldable pub serialize : GenericPayload → Result Bytes (Unit {0})
unfolding serialize_new_raw
serialize p =
    if ltb tio_packet_max_payload_size (length p.payload)
    then err tt
    else ok (serialize_new_raw p.packet_type 0 (length p.payload % 65536) ++ p.payload)

pub serialize-frame : (p : GenericPayload) → serialize p ≡ frame p.packet_type p.payload
unfolding serialize
serialize-frame p = serialize_new_raw-frame p.packet_type _ p.payload refl

pub deserialize-body :
    (p : GenericPayload) (full_data : Bytes)
    → byte full_data 0 ≡ p.packet_type
    → deserialize p.payload full_data ≡ ok p
unfolding deserialize
deserialize-body p full_data e = ground arith
