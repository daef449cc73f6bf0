-- ===== src/Proto/LegacyStreamData.antt =====
-- `LegacyStreamDataPayload` of twinleaf/src/tio/proto/legacy.rs.
use twinleaf_rust.Shared.{
  ℕ, ◌+◌, ◌≤◌, ◌≡◌, refl, [], ◌++◌, arith, ltb, if◌then◌else◌, length, drop, Bytes, byte,
  u32_from_le, u32_to_le, u32_le, IsU32, Result, ok, err, ◌%◌,
}
use twinleaf_rust.Proto.Limits.{Error, too_small, tio_packet_max_payload_size}
use twinleaf_rust.Proto.Header.{legacy_stream_data, serialize_new, pkt_type_into}
use twinleaf_rust.Proto.Frame.{frame, serialize_new-frame}

pub record LegacyStreamDataPayload : Type 0 where
  pub sample_n : ℕ
  pub samples : Bytes

unfoldable pub deserialize : Bytes → Bytes → Result LegacyStreamDataPayload Error
deserialize raw full_data =
    if ltb (length raw) 5
    then err (too_small full_data)
    else ok (record {
      sample_n = u32_from_le (byte raw 0) (byte raw 1) (byte raw 2) (byte raw 3);
      samples = drop 4 raw;
    })

unfoldable pub serialize : LegacyStreamDataPayload → Result Bytes (Unit {0})
unfolding serialize_new
serialize p =
    let payload_size = 4 + length p.samples in
    if ltb tio_packet_max_payload_size payload_size
    then err tt
    else ok (
        serialize_new legacy_stream_data 0 (payload_size % 65536)
        ++ (u32_to_le p.sample_n ++ p.samples))

abbrev pub body : LegacyStreamDataPayload → Bytes
body p = u32_to_le p.sample_n ++ p.samples

pub record IsValid (p : LegacyStreamDataPayload) : Type 0 where
  pub sample_range : IsU32 p.sample_n
  pub some_data : 1 ≤ length p.samples

pub serialize-frame :
    (p : LegacyStreamDataPayload) → serialize p ≡ frame (pkt_type_into legacy_stream_data) (body p)
unfolding serialize
serialize-frame p = serialize_new-frame legacy_stream_data _ (body p) (omega arith)

pub deserialize-body :
    (p : LegacyStreamDataPayload) (full_data : Bytes)
    → IsValid p
    → deserialize (body p) full_data ≡ ok p
unfolding deserialize
deserialize-body p full_data v = ground (arith, u32_le p.sample_n)

-- `serialize` accepts a payload without samples, and `deserialize` refuses what it wrote.
pub deserialize-body_empty :
    (n : ℕ) (full_data : Bytes)
    → deserialize (body (record { sample_n = n; samples = [] })) full_data
      ≡ err (too_small full_data)
unfolding deserialize
deserialize-body_empty n full_data = refl
