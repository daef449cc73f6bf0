-- ===== src/Proto/Meta/Segment.antt =====
-- `SegmentMetadata` of twinleaf/src/tio/proto/meta.rs.
use twinleaf_rust.Shared.{
  ℕ, ◌+◌, ◌≤◌, ◌≡◌, refl, Bool, not, ◌&&◌, [], ◌∷◌, ◌++◌, arith, ltb, ◌==◌, if◌then◌else◌, length,
  drop, Bytes, byte, u32_from_le, u32_to_le, u32_le, IsU32, Result, ok, err, ◌>>=◌, ◌>>◌, refuse,
  bit_and,
}
use twinleaf_rust.Text.{Text, IsUtf8}
use twinleaf_rust.Proto.Limits.{Error, too_small, invalid_payload}
use twinleaf_rust.Proto.Vararg.{
  split, peel_string, append_string, extend, split-append, peel_string-append, append_string-eq-ok,
  extend-eq-ok,
}

pub data MetadataEpoch : Type 0 where
  invalid zero_epoch systime unix : MetadataEpoch
  unknown : ℕ → MetadataEpoch

unfoldable pub epoch_from : ℕ → MetadataEpoch
epoch_from b =
    if b == 0
    then invalid
    else if b == 1
    then zero_epoch
    else if b == 2
    then systime
    else if b == 3
    then unix
    else unknown b

unfoldable pub epoch_into : MetadataEpoch → ℕ
epoch_into invalid = 0
epoch_into zero_epoch = 1
epoch_into systime = 2
epoch_into unix = 3
epoch_into (unknown b) = b

abbrev pub IsEpoch : MetadataEpoch → Type 0
IsEpoch (unknown b) = 4 ≤ b
IsEpoch invalid = Unit
IsEpoch _ = Unit

epoch_from-into : (t : MetadataEpoch) → IsEpoch t → epoch_from (epoch_into t) ≡ t
unfolding epoch_from epoch_into
epoch_from-into (unknown b) h = ground arith
epoch_from-into invalid h = refl
epoch_from-into _ h = refl

pub data MetadataFilter : Type 0 where
  unfiltered first_order_cascade1 first_order_cascade2 : MetadataFilter
  unknown_filter : ℕ → MetadataFilter

unfoldable pub filter_from : ℕ → MetadataFilter
filter_from b =
    if b == 0
    then unfiltered
    else if b == 1
    then first_order_cascade1
    else if b == 2
    then first_order_cascade2
    else unknown_filter b

unfoldable pub filter_into : MetadataFilter → ℕ
filter_into unfiltered = 0
filter_into first_order_cascade1 = 1
filter_into first_order_cascade2 = 2
filter_into (unknown_filter b) = b

abbrev pub IsFilter : MetadataFilter → Type 0
IsFilter (unknown_filter b) = 3 ≤ b
IsFilter unfiltered = Unit
IsFilter _ = Unit

filter_from-into : (t : MetadataFilter) → IsFilter t → filter_from (filter_into t) ≡ t
unfolding filter_from filter_into
filter_from-into (unknown_filter b) h = ground arith
filter_from-into unfiltered h = refl
filter_from-into _ h = refl

-- `filter_cutoff` is an `f32`, kept as the number of its bits.
pub record SegmentMetadata : Type 0 where
  pub stream_id : ℕ
  pub segment_id : ℕ
  pub flags : ℕ
  pub time_ref_epoch : MetadataEpoch
  pub time_ref_serial : Text
  pub time_ref_session_id : ℕ
  pub start_time : ℕ
  pub sampling_rate : ℕ
  pub decimation : ℕ
  pub filter_cutoff : ℕ
  pub filter_type : MetadataFilter

unfoldable pub deserialize : Bytes → Bytes → Result (SegmentMetadata × Bytes × Bytes) Error
deserialize raw full_data = do
  (fixed, varlen) ← split raw full_data
  refuse (ltb (length fixed) 27) (too_small full_data)
  (timeref_serial, varlen) ← peel_string varlen (byte fixed 5) full_data
  refuse (ltb 27 (length fixed) && ltb 0 (length varlen)) (invalid_payload full_data)
  let m : SegmentMetadata = record {
    stream_id = byte fixed 1;
    segment_id = byte fixed 2;
    flags = byte fixed 3;
    time_ref_epoch = epoch_from (byte fixed 4);
    time_ref_serial = timeref_serial;
    time_ref_session_id = u32_from_le (byte fixed 6) (byte fixed 7) (byte fixed 8) (byte fixed 9);
    start_time = u32_from_le (byte fixed 10) (byte fixed 11) (byte fixed 12) (byte fixed 13);
    sampling_rate = u32_from_le (byte fixed 14) (byte fixed 15) (byte fixed 16) (byte fixed 17);
    decimation = u32_from_le (byte fixed 18) (byte fixed 19) (byte fixed 20) (byte fixed 21);
    filter_cutoff = u32_from_le (byte fixed 22) (byte fixed 23) (byte fixed 24) (byte fixed 25);
    filter_type = filter_from (byte fixed 26);
  }
  ok (m, drop 27 fixed, varlen)

unfoldable pub serialize : SegmentMetadata → Bytes → Bytes → Result (Bytes × Bytes) (Unit {0})
serialize m extra_fixed extra_varlen = do
  (serial_len, varlen) ← append_string [] m.time_ref_serial
  extend
      (27
        ∷ m.stream_id
        ∷ m.segment_id
        ∷ m.flags
        ∷ epoch_into m.time_ref_epoch
        ∷ serial_len
        ∷ (u32_to_le m.time_ref_session_id
            ++ (u32_to_le m.start_time
                ++ (u32_to_le m.sampling_rate
                    ++ (u32_to_le m.decimation
                        ++ (u32_to_le m.filter_cutoff ++ (filter_into m.filter_type ∷ [])))))))
      varlen extra_fixed extra_varlen

pub record IsValid (m : SegmentMetadata) : Type 0 where
  pub epoch_known : IsEpoch m.time_ref_epoch
  pub serial_utf8 : IsUtf8 m.time_ref_serial
  pub session_range : IsU32 m.time_ref_session_id
  pub start_range : IsU32 m.start_time
  pub rate_range : IsU32 m.sampling_rate
  pub decimation_range : IsU32 m.decimation
  pub cutoff_range : IsU32 m.filter_cutoff
  pub filter_known : IsFilter m.filter_type

-- The two parts that `serialize` writes.
abbrev pub fixed_part : SegmentMetadata → Bytes → Bytes
fixed_part m extra_fixed =
    m.stream_id
    ∷ m.segment_id
    ∷ m.flags
    ∷ epoch_into m.time_ref_epoch
    ∷ length m.time_ref_serial
    ∷ (u32_to_le m.time_ref_session_id
        ++ (u32_to_le m.start_time
            ++ (u32_to_le m.sampling_rate
                ++ (u32_to_le m.decimation
                    ++ (u32_to_le m.filter_cutoff ++ (filter_into m.filter_type ∷ extra_fixed))))))

abbrev pub varlen_part : SegmentMetadata → Bytes → Bytes
varlen_part m extra_varlen = m.time_ref_serial ++ extra_varlen

pub serialize-eq-ok :
    (m : SegmentMetadata) (extra_fixed extra_varlen f v : Bytes)
    → serialize m extra_fixed extra_varlen ≡ ok (f, v)
    → (f ≡ (27 + length extra_fixed) ∷ fixed_part m extra_fixed) × (v ≡ varlen_part m extra_varlen)
unfolding serialize
serialize-eq-ok m extra_fixed extra_varlen f v e =
    let a = append_string-eq-ok [] m.time_ref_serial _ e in
    let x = extend-eq-ok 27 _ _ extra_fixed extra_varlen f v a.1 in (x.0, x.1)

pub deserialize_parts :
    (m : SegmentMetadata) (extra_fixed extra_varlen full_data : Bytes)
    → IsValid m
    → deserialize
        ((27 + length extra_fixed) ∷ (fixed_part m extra_fixed ++ varlen_part m extra_varlen))
        full_data
      ≡ (if ltb 0 (length extra_fixed) && ltb 0 (length extra_varlen)
          then err (invalid_payload full_data)
          else ok (m, extra_fixed, extra_varlen))
unfolding deserialize
deserialize_parts m extra_fixed extra_varlen full_data w =
    rw
      (split-append (27 + length extra_fixed) (fixed_part m extra_fixed)
        (varlen_part m extra_varlen) full_data (omega arith) (omega arith))
      (rw (peel_string-append m.time_ref_serial extra_varlen full_data _ refl w.serial_utf8) (
        rw
          (
            u32_le m.time_ref_session_id w.session_range,
            u32_le m.start_time w.start_range,
            u32_le m.sampling_rate w.rate_range,
            u32_le m.decimation w.decimation_range,
            u32_le m.filter_cutoff w.cutoff_range,
            epoch_from-into m.time_ref_epoch w.epoch_known,
            filter_from-into m.filter_type w.filter_known,
          )
          (ground arith)))

-- `TL_METADATA_SEGMENT_VALID` and `TL_METADATA_SEGMENT_ACTIVE`
unfoldable pub valid : SegmentMetadata → Bool
valid m = not (bit_and m.flags 0x01 == 0)

unfoldable pub active : SegmentMetadata → Bool
active m = not (bit_and m.flags 0x02 == 0)
