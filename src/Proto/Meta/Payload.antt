-- ===== src/Proto/Meta/Payload.antt =====
-- `MetadataType`, `MetadataContent` and `MetadataPayload` of twinleaf/src/tio/proto/meta.rs.
pub mod RoundTrip
use twinleaf_rust.Shared.{
  ℕ, suc, ◌+◌, ◌≤◌, ◌<◌, ◌≡◌, ◌≢◌, ◌⊎◌, refl, ap, ◌∙◌, append_assoc, Bool, true, false, not, ◌&&◌,
  [], ◌∷◌, ◌++◌, arith, ltb, leb, ◌==◌, if◌then◌else◌, length, length-append, drop, Bytes, byte,
  Result, ok, err, ◌>>=◌, ◌>>◌, refuse, ◌%◌, bit_and, >>=-eq-ok, IsU16,
}
use twinleaf_rust.Proto.Limits.{Error, too_small, invalid_payload, tio_packet_max_payload_size}
use twinleaf_rust.Proto.Header.{TioPktType, metadata, serialize_new, pkt_type_into}
use twinleaf_rust.Proto.Frame.{framed, frame, serialize_new-frame, frame-eq-ok}
use twinleaf_rust.Proto.Vararg.{split, split-append}
use twinleaf_rust.Proto.Meta.Device
use twinleaf_rust.Proto.Meta.Device.{DeviceMetadata}
use twinleaf_rust.Proto.Meta.Stream
use twinleaf_rust.Proto.Meta.Stream.{StreamMetadata}
use twinleaf_rust.Proto.Meta.Segment
use twinleaf_rust.Proto.Meta.Segment.{SegmentMetadata}
use twinleaf_rust.Proto.Meta.Column
use twinleaf_rust.Proto.Meta.Column.{ColumnMetadata}

pub data MetadataType : Type 0 where
  device_type stream_type segment_type column_type : MetadataType
  unknown_type : ℕ → MetadataType

unfoldable pub metadata_type_from : ℕ → MetadataType
metadata_type_from b =
    if b == 1
    then device_type
    else if b == 2
    then stream_type
    else if b == 3
    then segment_type
    else if b == 4
    then column_type
    else unknown_type b

unfoldable pub metadata_type_into : MetadataType → ℕ
metadata_type_into device_type = 1
metadata_type_into stream_type = 2
metadata_type_into segment_type = 3
metadata_type_into column_type = 4
metadata_type_into (unknown_type b) = b

pub data MetadataContent : Type 0 where
  device : DeviceMetadata → MetadataContent
  stream : StreamMetadata → MetadataContent
  segment : SegmentMetadata → MetadataContent
  column : ColumnMetadata → MetadataContent
  unknown : ℕ → MetadataContent

pub record MetadataPayload : Type 0 where
  pub content : MetadataContent
  pub flags : ℕ
  pub unknown_fixed : Bytes
  pub unknown_varlen : Bytes

-- `TL_METADATA_PERIODIC`, `TL_METADATA_UPDATE` and `TL_METADATA_LAST`
abbrev pub tl_metadata_update : ℕ
tl_metadata_update = 0x02

unfoldable pub periodic : MetadataPayload → Bool
periodic p = not (bit_and p.flags 0x01 == 0)

unfoldable pub update : MetadataPayload → Bool
update p = not (bit_and p.flags tl_metadata_update == 0)

unfoldable pub last : MetadataPayload → Bool
last p = not (bit_and p.flags 0x04 == 0)

-- The content of each kind, with the parts of it that are not known.
unfoldable pub read_content :
    MetadataType → Bytes → Bytes → Result (MetadataContent × Bytes × Bytes) Error
read_content device_type raw full_data = do
  (dm, uf, uv) ← Device.deserialize raw full_data
  ok (device dm, uf, uv)
read_content stream_type raw full_data = do
  (sm, uf, uv) ← Stream.deserialize raw full_data
  ok (stream sm, uf, uv)
read_content segment_type raw full_data = do
  (sm, uf, uv) ← Segment.deserialize raw full_data
  ok (segment sm, uf, uv)
read_content column_type raw full_data = do
  (cm, uf, uv) ← Column.deserialize raw full_data
  ok (column cm, uf, uv)
read_content (unknown_type mtype) raw full_data = do
  (uf, uv) ← split raw full_data
  ok (unknown mtype, uf, uv)

unfoldable pub deserialize : Bytes → Bytes → Result MetadataPayload Error
deserialize raw full_data = do
  refuse (ltb (length raw) 2) (too_small full_data)
  (content, uf, uv) ← read_content (metadata_type_from (byte raw 0)) (drop 2 raw) full_data
  ok (record { content = content; flags = byte raw 1; unknown_fixed = uf; unknown_varlen = uv })

-- The fixed part, the variable part and the kind.
unfoldable pub write_content :
    MetadataContent → Bytes → Bytes → Result (Bytes × Bytes × MetadataType) (Unit {0})
write_content (device dm) uf uv = do (f, v) ← Device.serialize dm uf uv; ok (f, v, device_type)
write_content (stream sm) uf uv = do (f, v) ← Stream.serialize sm uf uv; ok (f, v, stream_type)
write_content (segment sm) uf uv = do (f, v) ← Segment.serialize sm uf uv; ok (f, v, segment_type)
write_content (column cm) uf uv = do (f, v) ← Column.serialize cm uf uv; ok (f, v, column_type)
write_content (unknown mtype) uf uv = ok (uf, uv, unknown_type mtype)

unfoldable pub serialize : MetadataPayload → Result Bytes (Unit {0})
serialize p = do
  (fixed, varlen, mtype) ← write_content p.content p.unknown_fixed p.unknown_varlen
  let payload_size = 2 + length fixed + length varlen
  refuse (ltb tio_packet_max_payload_size payload_size) tt
  ok (
      serialize_new metadata 0 (payload_size % 65536)
      ++ (metadata_type_into mtype ∷ p.flags ∷ (fixed ++ varlen)))
