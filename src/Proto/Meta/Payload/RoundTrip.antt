-- ===== src/Proto/Meta/Payload/RoundTrip.antt =====
-- What a metadata packet's parser makes of what its serialiser wrote.
use twinleaf_rust.Shared.{
  ℕ, suc, ◌+◌, ◌≤◌, ◌≡◌, refl, sym, ◌∙◌, Bool, true, false, ◌&&◌, [], ◌∷◌, ◌++◌, arith, ltb,
  if◌then◌else◌, length, length-append, Bytes, Result, ok, err, refuse_then, ◌%◌, >>=-eq-ok,
}
use twinleaf_rust.Proto.Limits.{Error, invalid_payload, tio_packet_max_payload_size}
use twinleaf_rust.Proto.Header.{metadata, serialize_new, pkt_type_into}
use twinleaf_rust.Proto.Frame.{framed, serialize_new-frame, frame-eq-ok}
use twinleaf_rust.Proto.Vararg.{split-append}
use twinleaf_rust.Proto.Meta.Device
use twinleaf_rust.Proto.Meta.Stream
use twinleaf_rust.Proto.Meta.Segment
use twinleaf_rust.Proto.Meta.Column
use twinleaf_rust.Proto.Meta.Payload.{
  MetadataType, unknown_type, metadata_type_from, metadata_type_into, MetadataContent, device,
  stream, segment, column, unknown, MetadataPayload, read_content, deserialize, write_content,
  serialize,
}

-- The catch-all kind is no named one, and carries its fixed part with that part's length.
abbrev pub IsSelfSized : Bytes → Type 0
IsSelfSized [] = ⊥
IsSelfSized (n ∷ fixed) = (n ≡ suc (length fixed)) × (2 ≤ n)

abbrev pub IsContent : MetadataContent → Bytes → Type 0
IsContent (device m) uf = Device.IsValid m
IsContent (stream m) uf = Stream.IsValid m
IsContent (segment m) uf = Segment.IsValid m
IsContent (column m) uf = Column.IsValid m
IsContent (unknown t) uf = (metadata_type_from t ≡ unknown_type t) × IsSelfSized uf

abbrev pub is_known : MetadataContent → Bool
is_known (unknown t) = false
is_known (device m) = true
is_known _ = true

-- What is read back: a known kind with both extensions is refused.
abbrev pub reread :
    MetadataContent → Bytes → Bytes → Bytes → Result (MetadataContent × Bytes × Bytes) Error
reread c uf uv full_data =
    if is_known c && (ltb 0 (length uf) && ltb 0 (length uv))
    then err (invalid_payload full_data)
    else ok (c, uf, uv)

module _ {f' v' f v : Bytes} {t' t : MetadataType}
    (e : ◌≡◌ {A = Result (Bytes × Bytes × MetadataType) (Unit {0})}
      (ok (f', v', t'))
      (ok (f, v, t))) where
  first : f' ≡ f
  first = ground arith

  second : v' ≡ v
  second = ground arith

  third : t' ≡ t
  third = ground arith

pub read_content-write_content :
    (c : MetadataContent) (uf uv f v : Bytes) (t : MetadataType) (full_data : Bytes)
    → write_content c uf uv ≡ ok (f, v, t)
    → IsContent c uf
    → read_content (metadata_type_from (metadata_type_into t)) (f ++ v) full_data
      ≡ reread c uf uv full_data
unfolding write_content read_content metadata_type_from metadata_type_into
read_content-write_content (device m) uf uv f v t full_data e w =
    let (p, s, q) = >>=-eq-ok (Device.serialize m uf uv) _ e in
    let x = Device.serialize-eq-ok m uf uv p.0 p.1 s in
    rw (← third q, ← first q, ← second q)
      (rw (x.0, x.1) (rw (Device.deserialize_parts m uf uv full_data w) (ground arith)))
read_content-write_content (stream m) uf uv f v t full_data e w =
    let (p, s, q) = >>=-eq-ok (Stream.serialize m uf uv) _ e in
    let x = Stream.serialize-eq-ok m uf uv p.0 p.1 s in
    rw (← third q, ← first q, ← second q)
      (rw (x.0, x.1) (rw (Stream.deserialize_parts m uf uv full_data w x.2 x.3) (ground arith)))
read_content-write_content (segment m) uf uv f v t full_data e w =
    let (p, s, q) = >>=-eq-ok (Segment.serialize m uf uv) _ e in
    let x = Segment.serialize-eq-ok m uf uv p.0 p.1 s in
    rw (← third q, ← first q, ← second q)
      (rw (x.0, x.1) (rw (Segment.deserialize_parts m uf uv full_data w) (ground arith)))
read_content-write_content (column m) uf uv f v t full_data e w =
    let (p, s, q) = >>=-eq-ok (Column.serialize m uf uv) _ e in
    let x = Column.serialize-eq-ok m uf uv p.0 p.1 s in
    rw (← third q, ← first q, ← second q)
      (rw (x.0, x.1) (rw (Column.deserialize_parts m uf uv full_data w) (ground arith)))
read_content-write_content (unknown t) [] uv f v t' full_data e w = absurd w.1
read_content-write_content (unknown t) (n ∷ fixed) uv f v t' full_data e w =
    rw (← third e, ← first e, ← second e)
      (rw w.0 (rw (split-append n fixed uv full_data w.1.0 w.1.1) refl))

abbrev pub reread_payload : MetadataPayload → Bytes → Result MetadataPayload Error
reread_payload p full_data =
    if is_known p.content && (ltb 0 (length p.unknown_fixed) && ltb 0 (length p.unknown_varlen))
    then err (invalid_payload full_data)
    else ok p

-- A body that the serialiser framed, and what the parser makes of it.
abbrev pub Reads : MetadataPayload → Bytes → Bytes → Type 0
Reads p raw body =
    (raw ≡ framed (pkt_type_into metadata) body)
    × (length body ≤ tio_packet_max_payload_size)
    × ((full_data : Bytes) → deserialize body full_data ≡ reread_payload p full_data)

deserialize-written :
    (p : MetadataPayload) (f v : Bytes) (t : MetadataType) (full_data : Bytes)
    → write_content p.content p.unknown_fixed p.unknown_varlen ≡ ok (f, v, t)
    → IsContent p.content p.unknown_fixed
    → deserialize (metadata_type_into t ∷ p.flags ∷ (f ++ v)) full_data ≡ reread_payload p full_data
unfolding deserialize
deserialize-written p f v t full_data e w =
    rw (read_content-write_content p.content p.unknown_fixed p.unknown_varlen f v t full_data e w)
      (ground arith)

serialize-written :
    (p : MetadataPayload) (raw : Bytes)
    → serialize p ≡ ok raw
    → (f v : Bytes) × (t : MetadataType) × (write_content p.content p.unknown_fixed p.unknown_varlen
        ≡ ok (f, v, t))
      × (raw ≡ framed (pkt_type_into metadata) (metadata_type_into t ∷ p.flags ∷ (f ++ v)))
      × (length (f ++ v) + 2 ≤ tio_packet_max_payload_size)
unfolding serialize
serialize-written p raw e =
    let ((f, v, t), s, q) =
      >>=-eq-ok (write_content p.content p.unknown_fixed p.unknown_varlen) _ e in
    let body : Bytes = metadata_type_into t ∷ p.flags ∷ (f ++ v) in
    let size : ℕ = 2 + length f + length v in
    let framing = serialize_new-frame metadata size body (omega (arith, length-append f v)) in
    let written : Result Bytes (Unit {0}) = ok (serialize_new metadata 0 (size % 65536) ++ body) in
    let (shape, fits) =
      frame-eq-ok _ body raw (sym framing ∙ sym (refuse_then (ltb 500 size) tt written) ∙ q) in
    (f, v, t, s, shape, omega arith)

-- Any metadata that is serialised is a frame of at most 500 bytes.
pub serialize-framed :
    (p : MetadataPayload) (raw : Bytes)
    → serialize p ≡ ok raw
    → (body : Bytes) × (raw ≡ framed (pkt_type_into metadata) body)
      × (length body ≤ tio_packet_max_payload_size)
serialize-framed p raw e =
    let (f, v, t, s, shape, fits) = serialize-written p raw e in
    (metadata_type_into t ∷ p.flags ∷ (f ++ v), shape, omega arith)

-- What metadata is read back as, whatever its kind, for content that is well-formed: its fields are
-- in their ranges, its texts are UTF-8, a catch-all stands for no named value, and the fixed part of
-- an unknown kind tells its own size. Serialised metadata is one frame, and its body is read as the
-- value that was written, except that a known kind with both an unknown fixed part
-- and an unknown variable part is refused as an invalid payload.
pub serialize-Reads :
    (p : MetadataPayload) (raw : Bytes)
    → serialize p ≡ ok raw
    → IsContent p.content p.unknown_fixed
    → (body : Bytes) × Reads p raw body
serialize-Reads p raw e w =
    let (f, v, t, s, shape, fits) = serialize-written p raw e in
    (
      metadata_type_into t ∷ p.flags ∷ (f ++ v),
      (shape, omega arith, λ full_data. deserialize-written p f v t full_data s w),
    )
