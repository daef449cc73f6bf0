-- ===== src/Proto/Payload/RoundTrip.antt =====
-- Every payload that a well-formed value is serialised to is read back as that value.
use twinleaf_rust.Shared.{
  ℕ, ◌+◌, ◌≤◌, ◌≡◌, inl, inr, refl, sym, ◌∙◌, true, arith, length, Bytes, byte, ok, IsU16, le→leb,
  lt→leb,
}
use twinleaf_rust.Proto.Limits.{tio_packet_max_payload_size}
use twinleaf_rust.Proto.Header
use twinleaf_rust.Proto.Header.{
  TioPktHdr, TioPktType, ptype, stream_id, pkt_type_from, pkt_type_into, pkt_type_valid,
}
use twinleaf_rust.Proto.Frame.{frame, frame-eq-ok}
use twinleaf_rust.Proto.LogMessage
use twinleaf_rust.Proto.Rpc.Request
use twinleaf_rust.Proto.Rpc.Reply
use twinleaf_rust.Proto.Rpc.ErrorReply
use twinleaf_rust.Proto.Heartbeat
use twinleaf_rust.Proto.LegacyStreamData
use twinleaf_rust.Proto.Meta.Payload as Metadata
use twinleaf_rust.Proto.Meta.Payload.{MetadataPayload}
use twinleaf_rust.Proto.Meta.Payload.RoundTrip.{IsContent, reread_payload, serialize-Reads}
use twinleaf_rust.Proto.StreamData
use twinleaf_rust.Proto.Generic
use twinleaf_rust.Proto.Payload.{
  Payload, log_message, rpc_request, rpc_reply, rpc_error, heartbeat, legacy_timebase_update,
  legacy_source_update, legacy_stream_update, legacy_stream_data, metadata, stream_data, unknown,
  serialize, deserialize,
}
use twinleaf_rust.Proto.Payload.WellFormed.{IsOpaque, IsPlain, IsWellFormed, Framing}

module _ (p : Payload) (raw : Bytes) (ty : ℕ) (body : Bytes) where
  frame-Framing :
      frame ty body ≡ ok raw
      → pkt_type_valid (pkt_type_from ty) ≡ true
      → (length body ≤ tio_packet_max_payload_size
          → (h : TioPktHdr) (full_data : Bytes) → h.pkt_type ≡ ty
          → byte full_data 0 ≡ ty
          → deserialize h body full_data ≡ ok p)
      → Framing p raw
  frame-Framing e valid reads =
      let (shape, fits) = frame-eq-ok ty body raw e in
      record {
        ty = ty;
        body = body;
        shape = shape;
        fits = fits;
        type_valid = valid;
        reads = reads fits;
      }

serialize-Framing_log :
    (p : LogMessage.LogMessagePayload) (raw : Bytes)
    → LogMessage.serialize p ≡ ok raw
    → LogMessage.IsValid p
    → Framing (log_message p) raw
unfolding deserialize pkt_type_from pkt_type_into pkt_type_valid
serialize-Framing_log p raw e w =
    frame-Framing (log_message p) raw 1 (LogMessage.body p) (sym (LogMessage.serialize-frame p) ∙ e)
      refl (λ _ h full_data ht hb. rw ht (rw (LogMessage.deserialize-body p full_data w)))

serialize-Framing_request :
    (p : Request.RpcRequestPayload) (raw : Bytes)
    → Request.serialize p ≡ ok raw
    → Request.IsValid p
    → Framing (rpc_request p) raw
unfolding deserialize pkt_type_from pkt_type_into pkt_type_valid
serialize-Framing_request p raw e w =
    frame-Framing (rpc_request p) raw 2 (Request.body p) (sym (Request.serialize-frame p w) ∙ e)
      refl (λ fits h full_data ht hb. rw ht (rw (Request.deserialize-body p full_data w fits)))

serialize-Framing_reply :
    (p : Reply.RpcReplyPayload) (raw : Bytes)
    → Reply.serialize p ≡ ok raw
    → IsU16 p.id
    → Framing (rpc_reply p) raw
unfolding deserialize pkt_type_from pkt_type_into pkt_type_valid
serialize-Framing_reply p raw e w =
    frame-Framing (rpc_reply p) raw 3 (Reply.body p) (sym (Reply.serialize-frame p) ∙ e) refl
      (λ _ h full_data ht hb. rw ht (rw (Reply.deserialize-body p full_data w)))

serialize-Framing_error :
    (p : ErrorReply.RpcErrorPayload) (raw : Bytes)
    → ErrorReply.serialize p ≡ ok raw
    → ErrorReply.IsValid p
    → Framing (rpc_error p) raw
unfolding deserialize pkt_type_from pkt_type_into pkt_type_valid
serialize-Framing_error p raw e w =
    frame-Framing (rpc_error p) raw 4 (ErrorReply.body p) (sym (ErrorReply.serialize-frame p) ∙ e)
      refl (λ _ h full_data ht hb. rw ht (rw (ErrorReply.deserialize-body p full_data w)))

serialize-Framing_heartbeat :
    (p : Heartbeat.HeartbeatPayload) (raw : Bytes)
    → Heartbeat.serialize p ≡ ok raw
    → Heartbeat.IsValid p
    → Framing (heartbeat p) raw
unfolding deserialize pkt_type_from pkt_type_into pkt_type_valid
serialize-Framing_heartbeat p raw e w =
    frame-Framing (heartbeat p) raw 5 (Heartbeat.body p) (sym (Heartbeat.serialize-frame p) ∙ e)
      refl (λ _ h full_data ht hb. rw ht (rw (Heartbeat.deserialize-body p full_data w)))

serialize-Framing_legacy :
    (p : LegacyStreamData.LegacyStreamDataPayload) (raw : Bytes)
    → LegacyStreamData.serialize p ≡ ok raw
    → LegacyStreamData.IsValid p
    → Framing (legacy_stream_data p) raw
unfolding deserialize pkt_type_from pkt_type_into pkt_type_valid
serialize-Framing_legacy p raw e w =
    frame-Framing (legacy_stream_data p) raw 128 (LegacyStreamData.body p)
      (sym (LegacyStreamData.serialize-frame p) ∙ e) refl
      (λ _ h full_data ht hb. rw ht (rw (LegacyStreamData.deserialize-body p full_data w)))

serialize-Framing_metadata :
    (p : MetadataPayload) (raw : Bytes)
    → Metadata.serialize p ≡ ok raw
    → IsContent p.content p.unknown_fixed × IsPlain p
    → Framing (metadata p) raw
unfolding deserialize pkt_type_from pkt_type_into pkt_type_valid
serialize-Framing_metadata p raw e (w, plain) =
    let (body, (shape, fits, reads)) = serialize-Reads p raw e w in
    record {
      ty = 11;
      body = body;
      shape = shape;
      fits = fits;
      type_valid = refl;
      reads = λ h full_data ht hb. rw ht (rw reads (rw (reread_plain full_data plain)));
    }
  where
    reread_plain : (full_data : Bytes) → IsPlain p → reread_payload p full_data ≡ ok p
    reread_plain full_data (inl none_left) = ground arith
    reread_plain full_data (inr other) = ground arith

stream_type :
    (id : ℕ) → 1 ≤ id → id ≤ 127 → pkt_type_from (128 + id) ≡ Header.unknown_or_stream (128 + id)
unfolding pkt_type_from
stream_type id lo hi = ground arith

serialize-Framing_stream :
    (p : StreamData.StreamDataPayload) (raw : Bytes)
    → StreamData.serialize p ≡ ok raw
    → StreamData.IsValid p
    → Framing (stream_data p) raw
unfolding deserialize pkt_type_valid
serialize-Framing_stream p raw e w =
    let t = stream_type p.stream_id w.id_low w.id_high in
    frame-Framing (stream_data p) raw (128 + p.stream_id) (StreamData.body p) framing (rw t)
      (λ _ h full_data ht hb.
        rw (ht, t, le→leb 128 (128 + p.stream_id) (omega arith))
          (rw (StreamData.deserialize-body p full_data w hb)))
  where
    framing : frame (128 + p.stream_id) (StreamData.body p) ≡ ok raw
    framing = ground (arith, StreamData.serialize-frame p)

opaque_valid : (ty : ℕ) → IsOpaque ty → pkt_type_valid (pkt_type_from ty) ≡ true
unfolding pkt_type_valid
opaque_valid ty (inl legacy) = unfold pkt_type_from in ground arith
opaque_valid ty (inr other) = rw other.0

deserialize_opaque :
    (p : Generic.GenericPayload) (h : TioPktHdr) (full_data : Bytes)
    → h.pkt_type ≡ p.packet_type
    → byte full_data 0 ≡ p.packet_type
    → IsOpaque p.packet_type
    → deserialize h p.payload full_data ≡ ok (unknown p)
unfolding deserialize
deserialize_opaque p h full_data ht hb (inl legacy) =
    let known = Generic.deserialize-body p full_data hb in unfold pkt_type_from in ground arith
deserialize_opaque p h full_data ht hb (inr other) =
    rw (ht, other.0, lt→leb 128 p.packet_type other.1)
      (rw (Generic.deserialize-body p full_data hb))

serialize-Framing_generic :
    (p : Generic.GenericPayload) (raw : Bytes)
    → Generic.serialize p ≡ ok raw
    → IsOpaque p.packet_type
    → Framing (unknown p) raw
unfolding deserialize pkt_type_valid
serialize-Framing_generic p raw e w =
    frame-Framing (unknown p) raw p.packet_type p.payload (sym (Generic.serialize-frame p) ∙ e)
      (opaque_valid p.packet_type w)
      (λ _ h full_data ht hb. deserialize_opaque p h full_data ht hb w)

pub serialize-Framing :
    (p : Payload) (raw : Bytes) → serialize p ≡ ok raw → IsWellFormed p → Framing p raw
unfolding serialize
serialize-Framing (log_message p) raw e w = serialize-Framing_log p raw e w
serialize-Framing (rpc_request p) raw e w = serialize-Framing_request p raw e w
serialize-Framing (rpc_reply p) raw e w = serialize-Framing_reply p raw e w
serialize-Framing (rpc_error p) raw e w = serialize-Framing_error p raw e w
serialize-Framing (heartbeat p) raw e w = serialize-Framing_heartbeat p raw e w
serialize-Framing (legacy_stream_data p) raw e w = serialize-Framing_legacy p raw e w
serialize-Framing (metadata p) raw e w = serialize-Framing_metadata p raw e w
serialize-Framing (stream_data p) raw e w = serialize-Framing_stream p raw e w
serialize-Framing (unknown p) raw e w = serialize-Framing_generic p raw e w
serialize-Framing (legacy_timebase_update p) raw e w = cc
serialize-Framing (legacy_source_update p) raw e w = cc
serialize-Framing (legacy_stream_update p) raw e w = cc
