-- ===== src/Proto/Meta/Stream.antt =====
-- `StreamMetadata` of twinleaf/src/tio/proto/meta.rs.
use twinleaf_rust.Shared.{
  ℕ, ◌+◌, ◌≡◌, refl, ◌&&◌, [], ◌∷◌, ◌++◌, arith, ltb, if◌then◌else◌, length, drop, Bytes, byte,
  u16_from_le, u16_to_le, u16_le, IsU16, Result, ok, err, ◌>>=◌, ◌>>◌, refuse,
}
use twinleaf_rust.Text.{Text, IsUtf8}
use twinleaf_rust.Proto.Limits.{Error, too_small, invalid_payload}
use twinleaf_rust.Proto.Vararg.{
  split, peel_string, checked_u8_size, checked_u16_size, append_string, extend, split-append,
  peel_string-append, append_string-eq-ok, checked_u8_size-eq-ok, checked_u16_size-eq-ok,
  extend-eq-ok,
}

pub record StreamMetadata : Type 0 where
  pub stream_id : ℕ
  pub name : Text
  pub n_columns : ℕ
  pub n_segments : ℕ
  pub sample_size : ℕ
  pub buf_samples : ℕ

unfoldable pub deserialize : Bytes → Bytes → Result (StreamMetadata × Bytes × Bytes) Error
deserialize raw full_data = do
  (fixed, varlen) ← split raw full_data
  refuse (ltb (length fixed) 9) (too_small full_data)
  (name, varlen) ← peel_string varlen (byte fixed 8) full_data
  refuse (ltb 9 (length fixed) && ltb 0 (length varlen)) (invalid_payload full_data)
  let m : StreamMetadata = record {
    stream_id = byte fixed 1;
    name = name;
    n_columns = byte fixed 2;
    n_segments = byte fixed 3;
    sample_size = u16_from_le (byte fixed 4) (byte fixed 5);
    buf_samples = u16_from_le (byte fixed 6) (byte fixed 7);
  }
  ok (m, drop 9 fixed, varlen)

unfoldable pub serialize : StreamMetadata → Bytes → Bytes → Result (Bytes × Bytes) (Unit {0})
serialize m extra_fixed extra_varlen = do
  n_columns ← checked_u8_size m.n_columns
  n_segments ← checked_u8_size m.n_segments
  sample_size ← checked_u16_size m.sample_size
  buf_samples ← checked_u16_size m.buf_samples
  (name_len, varlen) ← append_string [] m.name
  extend
      (9
        ∷ m.stream_id
        ∷ n_columns
        ∷ n_segments
        ∷ (u16_to_le sample_size ++ (u16_to_le buf_samples ++ (name_len ∷ []))))
      varlen extra_fixed extra_varlen

pub record IsValid (m : StreamMetadata) : Type 0 where
  pub name_utf8 : IsUtf8 m.name

-- The two parts that `serialize` writes.
abbrev pub fixed_part : StreamMetadata → Bytes → Bytes
fixed_part m extra_fixed =
    m.stream_id
    ∷ m.n_columns
    ∷ m.n_segments
    ∷ (u16_to_le m.sample_size ++ (u16_to_le m.buf_samples ++ (length m.name ∷ extra_fixed)))

abbrev pub varlen_part : StreamMetadata → Bytes → Bytes
varlen_part m extra_varlen = m.name ++ extra_varlen

pub serialize-eq-ok :
    (m : StreamMetadata) (extra_fixed extra_varlen f v : Bytes)
    → serialize m extra_fixed extra_varlen ≡ ok (f, v)
    → (f ≡ (9 + length extra_fixed) ∷ fixed_part m extra_fixed)
      × (v ≡ varlen_part m extra_varlen)
      × IsU16 m.sample_size
      × IsU16 m.buf_samples
unfolding serialize
serialize-eq-ok m extra_fixed extra_varlen f v e =
    let a = checked_u8_size-eq-ok m.n_columns _ e in
    let b = checked_u8_size-eq-ok m.n_segments _ a.1 in
    let c = checked_u16_size-eq-ok m.sample_size _ b.1 in
    let d = checked_u16_size-eq-ok m.buf_samples _ c.1 in
    let g = append_string-eq-ok [] m.name _ d.1 in
    let x = extend-eq-ok 9 _ _ extra_fixed extra_varlen f v g.1 in
    (x.0, x.1, omega arith, omega arith)

pub deserialize_parts :
    (m : StreamMetadata) (extra_fixed extra_varlen full_data : Bytes)
    → IsValid m
    → IsU16 m.sample_size
    → IsU16 m.buf_samples
    → deserialize
        ((9 + length extra_fixed) ∷ (fixed_part m extra_fixed ++ varlen_part m extra_varlen))
        full_data
      ≡ (if ltb 0 (length extra_fixed) && ltb 0 (length extra_varlen)
          then err (invalid_payload full_data)
          else ok (m, extra_fixed, extra_varlen))
unfolding deserialize
deserialize_parts m extra_fixed extra_varlen full_data w hs hb =
    rw
      (split-append (9 + length extra_fixed) (fixed_part m extra_fixed) (varlen_part m extra_varlen)
        full_data (omega arith) (omega arith))
      (rw (peel_string-append m.name extra_varlen full_data _ refl w.name_utf8)
        (rw (u16_le m.sample_size hs, u16_le m.buf_samples hb) (ground arith)))
