-- ===== src/Proto/Payload/Size.antt =====
-- The size of what is serialised.
use twinleaf_rust.Shared.{
  ℕ, ◌+◌, ◌≤◌, ◌<◌, ◌≡◌, refl, sym, ◌∙◌, ◌++◌, arith, length, length-append, Bytes, ok, ◌%◌,
  u16_to_le, IsU16, le→ltb,
}
use twinleaf_rust.Text.{Text}
use twinleaf_rust.Proto.Header
use twinleaf_rust.Proto.Header.{serialize_new, serialize_new_raw, pkt_type_into}
use twinleaf_rust.Proto.Frame.{framed, frame, frame-eq-ok, serialize_new-frame}
use twinleaf_rust.Proto.LogMessage
use twinleaf_rust.Proto.Rpc.Request
use twinleaf_rust.Proto.Rpc.Request.{
  RpcRequestPayload, RpcMethod, by_id, by_name, method_bytes, method_name_len,
}
use twinleaf_rust.Proto.Rpc.Reply
use twinleaf_rust.Proto.Rpc.ErrorReply
use twinleaf_rust.Proto.Heartbeat
use twinleaf_rust.Proto.LegacyStreamData
use twinleaf_rust.Proto.Meta.Payload.RoundTrip as Metadata
use twinleaf_rust.Proto.StreamData
use twinleaf_rust.Proto.Generic
use twinleaf_rust.Proto.Payload.{
  Payload, log_message, rpc_request, rpc_reply, rpc_error, heartbeat, legacy_timebase_update,
  legacy_source_update, legacy_stream_update, legacy_stream_data, metadata, stream_data, unknown,
  serialize,
}

-- A method's name is short enough for the 16 bits of its length.
abbrev pub IsShort : RpcMethod → Type 0
IsShort (by_id m) = Unit
IsShort (by_name n) = IsU16 (length n)

abbrev pub IsSendable : Payload → Type 0
IsSendable (rpc_request p) = IsShort p.method
IsSendable (log_message p) = Unit
IsSendable _ = Unit

-- The serialised bytes are a frame of at most 500 bytes.
pub record IsFramed (raw : Bytes) : Type 0 where
  pub ty : ℕ
  pub body : Bytes
  pub shape : raw ≡ framed ty body
  pub fits : length body ≤ 500

frame-IsFramed : (ty : ℕ) (body raw : Bytes) → frame ty body ≡ ok raw → IsFramed raw
frame-IsFramed ty body raw e =
    let (shape, fits) = frame-eq-ok ty body raw e in
    record { ty = ty; body = body; shape = shape; fits = fits }

length-method_bytes : (m : RpcMethod) → IsShort m → length (method_bytes m) ≡ 2 + method_name_len m
unfolding method_bytes
length-method_bytes (by_id m) h = omega arith
length-method_bytes (by_name n) h = omega arith

request-frame :
    (p : RpcRequestPayload)
    → IsShort p.method
    → Request.serialize p ≡ frame (pkt_type_into Header.rpc_req) (Request.body p)
unfolding Request.serialize
request-frame p h =
    serialize_new-frame Header.rpc_req _ (Request.body p)
      (omega (arith, length-append (method_bytes p.method) p.arg, length-method_bytes p.method h))

stream-IsFramed :
    (p : StreamData.StreamDataPayload) (raw : Bytes)
    → StreamData.serialize p ≡ ok raw
    → IsFramed raw
stream-IsFramed p raw e =
    frame-IsFramed (128 + p.stream_id) (StreamData.body p) raw
      (ground (arith, StreamData.serialize-frame p))

pub serialize-IsFramed :
    (p : Payload) (raw : Bytes) → serialize p ≡ ok raw → IsSendable p → IsFramed raw
unfolding serialize
serialize-IsFramed (log_message p) raw e h =
    frame-IsFramed _ _ raw (sym (LogMessage.serialize-frame p) ∙ e)
serialize-IsFramed (rpc_request p) raw e h = frame-IsFramed _ _ raw (sym (request-frame p h) ∙ e)
serialize-IsFramed (rpc_reply p) raw e h =
    frame-IsFramed _ _ raw (sym (Reply.serialize-frame p) ∙ e)
serialize-IsFramed (rpc_error p) raw e h =
    frame-IsFramed _ _ raw (sym (ErrorReply.serialize-frame p) ∙ e)
serialize-IsFramed (heartbeat p) raw e h =
    frame-IsFramed _ _ raw (sym (Heartbeat.serialize-frame p) ∙ e)
serialize-IsFramed (legacy_stream_data p) raw e h =
    frame-IsFramed _ _ raw (sym (LegacyStreamData.serialize-frame p) ∙ e)
serialize-IsFramed (metadata p) raw e h =
    let (body, shape, fits) = Metadata.serialize-framed p raw e in
    record { ty = 11; body = body; shape = unfold pkt_type_into in shape; fits = fits }
serialize-IsFramed (stream_data p) raw e h = stream-IsFramed p raw e
serialize-IsFramed (unknown p) raw e h =
    frame-IsFramed _ _ raw (sym (Generic.serialize-frame p) ∙ e)
serialize-IsFramed (legacy_timebase_update p) raw e h = cc
serialize-IsFramed (legacy_source_update p) raw e h = cc
serialize-IsFramed (legacy_stream_update p) raw e h = cc

length-serialize_new : (ty : Header.TioPktType) (r s : ℕ) → length (serialize_new ty r s) ≡ 4
unfolding serialize_new
length-serialize_new ty r s = refl

-- A method name of 64 KiB or more whose length, cut to 16 bits, is small passes the size check,
-- and is written out whole: the packet is longer than its name, and so than any packet may be.
pub serialize_long_name :
    (p : RpcRequestPayload) (n : Text)
    → p.method ≡ by_name n
    → 65536 ≤ length n
    → 4 + length n % 65536 + length p.arg ≤ 500
    → (raw : Bytes) × (serialize (rpc_request p) ≡ ok raw) × (length n < length raw)
unfolding serialize Request.serialize
serialize_long_name p n e long small =
    let tail : Bytes = method_bytes (by_name n) ++ p.arg in
    let front = serialize_new Header.rpc_req 0 ((4 + length n % 65536 + length p.arg) % 65536) in
    (
      front ++ (u16_to_le p.id ++ tail),
      rw e (rw (le→ltb 500 (4 + length n % 65536 + length p.arg) small) refl),
      unfold serialize_new method_bytes in omega (arith, length-append n p.arg),
    )
