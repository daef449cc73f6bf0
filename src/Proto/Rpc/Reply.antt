-- ===== src/Proto/Rpc/Reply.antt =====
-- `RpcReplyPayload` of twinleaf/src/tio/proto/rpc.rs.
use twinleaf_rust.Shared.{
  ℕ, ◌+◌, ◌≡◌, ◌++◌, arith, ltb, if◌then◌else◌, length, drop, Bytes, byte, u16_from_le, u16_to_le,
  u16_le, IsU16, Result, ok, err, ◌%◌,
}
use twinleaf_rust.Proto.Limits.{Error, too_small, tio_packet_max_payload_size}
use twinleaf_rust.Proto.Header.{rpc_rep, serialize_new, pkt_type_into}
use twinleaf_rust.Proto.Frame.{frame, serialize_new-frame}

pub record RpcReplyPayload : Type 0 where
  pub id : ℕ
  pub reply : Bytes

unfoldable pub deserialize : Bytes → Bytes → Result RpcReplyPayload Error
deserialize raw full_data =
    if ltb (length raw) 2
    then err (too_small full_data)
    else ok (record { id = u16_from_le (byte raw 0) (byte raw 1); reply = drop 2 raw })

unfoldable pub serialize : RpcReplyPayload → Result Bytes (Unit {0})
unfolding serialize_new
serialize p =
    let payload_size = 2 + length p.reply in
    if ltb tio_packet_max_payload_size payload_size
    then err tt
    else ok (serialize_new rpc_rep 0 (payload_size % 65536) ++ (u16_to_le p.id ++ p.reply))

abbrev pub body : RpcReplyPayload → Bytes
body p = u16_to_le p.id ++ p.reply

pub serialize-frame : (p : RpcReplyPayload) → serialize p ≡ frame (pkt_type_into rpc_rep) (body p)
unfolding serialize
serialize-frame p = serialize_new-frame rpc_rep _ (body p) (omega arith)

pub deserialize-body :
    (p : RpcReplyPayload) (full_data : Bytes) → IsU16 p.id → deserialize (body p) full_data ≡ ok p
unfolding deserialize
deserialize-body p full_data v = ground (arith, u16_le p.id)
