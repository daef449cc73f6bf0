-- ===== src/Proto/StreamData.antt =====
-- `StreamDataPayload` of twinleaf/src/tio/proto.rs.
use twinleaf_rust.Shared.{
  ℕ, ◌+◌, ◌-◌, ◌≤◌, ◌<◌, ◌≡◌, [], ◌∷◌, ◌++◌, arith, ltb, ◌==◌, if◌then◌else◌, length, drop, not,
  ◌||◌, Bytes, byte, u32_from_le, u32_to_le, IsU8, Result, ok, err, ◌%◌, ◌/◌, Bool-cases, inl, inr,
}
use twinleaf_rust.Proto.Limits.{Error, too_small, tio_packet_max_payload_size, tio_ptype_stream0}
use twinleaf_rust.Proto.Header.{unknown_or_stream, serialize_new, pkt_type_into}
use twinleaf_rust.Proto.Frame.{frame, serialize_new-frame}

pub record StreamDataPayload : Type 0 where
  pub stream_id : ℕ
  pub first_sample_n : ℕ
  pub segment_id : ℕ
  pub samples : Bytes

-- The caller has checked that the packet's type, the first byte of `full_data`, is at least 128.
unfoldable pub deserialize : Bytes → Bytes → Result StreamDataPayload Error
deserialize raw full_data =
    if ltb (length raw) 5
    then err (too_small full_data)
    else ok (record {
      stream_id = byte full_data 0 - tio_ptype_stream0;
      first_sample_n = u32_from_le (byte raw 0) (byte raw 1) (byte raw 2) 0;
      segment_id = byte raw 3;
      samples = drop 4 raw;
    })

unfoldable pub serialize : StreamDataPayload → Result Bytes (Unit {0})
unfolding serialize_new pkt_type_into
serialize p =
    if ltb p.stream_id 1 || ltb 127 p.stream_id
    then err tt
    else let sample_ser = u32_to_le p.first_sample_n in
      if not (byte sample_ser 3 == 0)
      then err tt
      else let payload_size = 4 + length p.samples in
        if ltb tio_packet_max_payload_size payload_size
        then err tt
        else ok (
            serialize_new (unknown_or_stream (tio_ptype_stream0 + p.stream_id)) 0
              (payload_size % 65536)
            ++ ((byte sample_ser 0 ∷ byte sample_ser 1 ∷ byte sample_ser 2 ∷ p.segment_id ∷ [])
                ++ p.samples))

abbrev pub body : StreamDataPayload → Bytes
body p =
    p.first_sample_n % 256
    ∷ p.first_sample_n / 256 % 256
    ∷ p.first_sample_n / 65536 % 256
    ∷ p.segment_id
    ∷ p.samples

pub record IsValid (p : StreamDataPayload) : Type 0 where
  pub id_low : 1 ≤ p.stream_id
  pub id_high : p.stream_id ≤ 127
  pub sample_range : p.first_sample_n < 16777216
  pub segment_range : IsU8 p.segment_id
  pub some_data : 1 ≤ length p.samples

pub serialize-frame :
    (p : StreamDataPayload)
    → serialize p ≡ (
        if (ltb p.stream_id 1 || ltb 127 p.stream_id)
          || not (p.first_sample_n / 16777216 % 256 == 0)
        then err tt
        else frame (128 + p.stream_id) (body p))
unfolding serialize pkt_type_into
serialize-frame p =
    let e =
      serialize_new-frame (unknown_or_stream (128 + p.stream_id)) (4 + length p.samples) (body p)
        (omega arith) in
    elim (Bool-cases (ltb p.stream_id 1 || ltb 127 p.stream_id)) [
      | inl bad ↦ rw bad
      | inr good ↦ rw good (elim (Bool-cases (p.first_sample_n / 16777216 % 256 == 0)) [
        | inl small ↦ rw small e
        | inr wide ↦ rw wide
      ])
    ]

pub deserialize-body :
    (p : StreamDataPayload) (full_data : Bytes)
    → IsValid p
    → byte full_data 0 ≡ 128 + p.stream_id
    → deserialize (body p) full_data ≡ ok p
unfolding deserialize
deserialize-body p full_data v e = ground arith
