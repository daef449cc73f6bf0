-- ===== src/Proto/Meta/Device.antt =====
-- `DeviceMetadata` of twinleaf/src/tio/proto/meta.rs.
use twinleaf_rust.Shared.{
  ℕ, ◌+◌, ◌≡◌, refl, ◌∙◌, append_assoc, ◌&&◌, [], ◌∷◌, ◌++◌, arith, ltb, if◌then◌else◌, length,
  drop, Bytes, byte, u32_from_le, u32_to_le, u32_le, IsU32, Result, ok, err, ◌>>=◌, ◌>>◌, refuse,
}
use twinleaf_rust.Text.{Text, IsUtf8}
use twinleaf_rust.Proto.Limits.{Error, too_small, invalid_payload}
use twinleaf_rust.Proto.Vararg.{
  split, peel_string, checked_u8_size, append_string, extend, split-append, peel_string-append,
  append_string-eq-ok, checked_u8_size-eq-ok, extend-eq-ok,
}

pub record DeviceMetadata : Type 0 where
  pub serial_number : Text
  pub firmware_hash : Text
  pub n_streams : ℕ
  pub session_id : ℕ
  pub name : Text

unfoldable pub deserialize : Bytes → Bytes → Result (DeviceMetadata × Bytes × Bytes) Error
deserialize raw full_data = do
  (fixed, varlen) ← split raw full_data
  refuse (ltb (length fixed) 9) (too_small full_data)
  (name, varlen) ← peel_string varlen (byte fixed 1) full_data
  (serial, varlen) ← peel_string varlen (byte fixed 6) full_data
  (firmware, varlen) ← peel_string varlen (byte fixed 7) full_data
  refuse (ltb 9 (length fixed) && ltb 0 (length varlen)) (invalid_payload full_data)
  let m : DeviceMetadata = record {
    serial_number = serial;
    firmware_hash = firmware;
    n_streams = byte fixed 8;
    session_id = u32_from_le (byte fixed 2) (byte fixed 3) (byte fixed 4) (byte fixed 5);
    name = name;
  }
  ok (m, drop 9 fixed, varlen)

unfoldable pub serialize : DeviceMetadata → Bytes → Bytes → Result (Bytes × Bytes) (Unit {0})
serialize m extra_fixed extra_varlen = do
  (name_len, varlen) ← append_string [] m.name
  (serial_len, varlen) ← append_string varlen m.serial_number
  (firmware_len, varlen) ← append_string varlen m.firmware_hash
  n ← checked_u8_size m.n_streams
  extend (9 ∷ name_len ∷ (u32_to_le m.session_id ++ (serial_len ∷ firmware_len ∷ n ∷ []))) varlen
      extra_fixed extra_varlen

pub record IsValid (m : DeviceMetadata) : Type 0 where
  pub session_range : IsU32 m.session_id
  pub serial_utf8 : IsUtf8 m.serial_number
  pub firmware_utf8 : IsUtf8 m.firmware_hash
  pub name_utf8 : IsUtf8 m.name

-- The two parts that `serialize` writes.
abbrev pub fixed_part : DeviceMetadata → Bytes → Bytes
fixed_part m extra_fixed =
    length m.name
    ∷ (u32_to_le m.session_id
        ++ (length m.serial_number ∷ length m.firmware_hash ∷ m.n_streams ∷ extra_fixed))

abbrev pub varlen_part : DeviceMetadata → Bytes → Bytes
varlen_part m extra_varlen = m.name ++ (m.serial_number ++ (m.firmware_hash ++ extra_varlen))

pub serialize-eq-ok :
    (m : DeviceMetadata) (extra_fixed extra_varlen f v : Bytes)
    → serialize m extra_fixed extra_varlen ≡ ok (f, v)
    → (f ≡ (9 + length extra_fixed) ∷ fixed_part m extra_fixed) × (v ≡ varlen_part m extra_varlen)
unfolding serialize
serialize-eq-ok m extra_fixed extra_varlen f v e =
    let a = append_string-eq-ok [] m.name _ e in
    let b = append_string-eq-ok m.name m.serial_number _ a.1 in
    let c = append_string-eq-ok (m.name ++ m.serial_number) m.firmware_hash _ b.1 in
    let d = checked_u8_size-eq-ok m.n_streams _ c.1 in
    let x = extend-eq-ok 9 _ _ extra_fixed extra_varlen f v d.1 in (x.0, x.1 ∙ simp append_assoc)

pub deserialize_parts :
    (m : DeviceMetadata) (extra_fixed extra_varlen full_data : Bytes)
    → IsValid m
    → deserialize
        ((9 + length extra_fixed) ∷ (fixed_part m extra_fixed ++ varlen_part m extra_varlen))
        full_data
      ≡ (if ltb 0 (length extra_fixed) && ltb 0 (length extra_varlen)
          then err (invalid_payload full_data)
          else ok (m, extra_fixed, extra_varlen))
unfolding deserialize
deserialize_parts m extra_fixed extra_varlen full_data w =
    rw
      (split-append (9 + length extra_fixed) (fixed_part m extra_fixed) (varlen_part m extra_varlen)
        full_data (omega arith) (omega arith))
      (rw (peel_string-append m.name _ full_data _ refl w.name_utf8) (
        rw (peel_string-append m.serial_number _ full_data _ refl w.serial_utf8) (
          rw (peel_string-append m.firmware_hash extra_varlen full_data _ refl w.firmware_utf8)
            (rw (u32_le m.session_id w.session_range) (ground arith)))))
