-- ===== src/Proto/Rpc/ErrorReply.antt =====
-- `RpcErrorPayload` of twinleaf/src/tio/proto/rpc.rs.
use twinleaf_rust.Shared.{
  ℕ, ◌+◌, ◌≡◌, ◌++◌, arith, ltb, if◌then◌else◌, length, drop, Bytes, byte, u16_from_le, u16_to_le,
  u16_le, IsU16, Result, ok, err, ◌%◌,
}
use twinleaf_rust.Proto.Limits.{Error, too_small, tio_packet_max_payload_size}
use twinleaf_rust.Proto.Header.{rpc_error, serialize_new, pkt_type_into}
use twinleaf_rust.Proto.Frame.{frame, serialize_new-frame}
use twinleaf_rust.Proto.Rpc.ErrorCode.{RpcErrorCode, code_from, code_into, IsCode, code_from-into}

pub record RpcErrorPayload : Type 0 where
  pub id : ℕ
  pub error : RpcErrorCode
  pub extra : Bytes

unfoldable pub deserialize : Bytes → Bytes → Result RpcErrorPayload Error
deserialize raw full_data =
    if ltb (length raw) 4
    then err (too_small full_data)
    else ok (record {
      id = u16_from_le (byte raw 0) (byte raw 1);
      error = code_from (u16_from_le (byte raw 2) (byte raw 3));
      extra = drop 4 raw;
    })

unfoldable pub serialize : RpcErrorPayload → Result Bytes (Unit {0})
unfolding serialize_new code_into
serialize p =
    let payload_size = 4 + length p.extra in
    if ltb tio_packet_max_payload_size payload_size
    then err tt
    else ok (
        serialize_new rpc_error 0 (payload_size % 65536)
        ++ (u16_to_le p.id ++ (u16_to_le (code_into p.error) ++ p.extra)))

abbrev pub body : RpcErrorPayload → Bytes
body p = u16_to_le p.id ++ (u16_to_le (code_into p.error) ++ p.extra)

pub record IsValid (p : RpcErrorPayload) : Type 0 where
  pub id_range : IsU16 p.id
  pub code_known : IsCode p.error
  pub code_range : IsU16 (code_into p.error)

pub serialize-frame : (p : RpcErrorPayload) → serialize p ≡ frame (pkt_type_into rpc_error) (body p)
unfolding serialize
serialize-frame p = serialize_new-frame rpc_error _ (body p) (omega arith)

pub deserialize-body :
    (p : RpcErrorPayload) (full_data : Bytes) → IsValid p → deserialize (body p) full_data ≡ ok p
unfolding deserialize
deserialize-body p full_data v =
    rw (u16_le p.id v.id_range, u16_le (code_into p.error) v.code_range)
      (rw (code_from-into p.error v.code_known) (ground arith))
