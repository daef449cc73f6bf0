-- ===== src/Proto/Meta/Column.antt =====
-- `ColumnMetadata` of twinleaf/src/tio/proto/meta.rs.
use twinleaf_rust.Shared.{
  ℕ, ◌+◌, ◌≡◌, refl, ◌∙◌, append_assoc, ◌&&◌, [], ◌∷◌, ◌++◌, arith, ltb, if◌then◌else◌, length,
  drop, Bytes, byte, Result, ok, err, ◌>>=◌, ◌>>◌, refuse,
}
use twinleaf_rust.Text.{Text, IsUtf8}
use twinleaf_rust.Proto.Limits.{Error, too_small, invalid_payload}
use twinleaf_rust.Proto.Vararg.{
  split, peel_string, checked_u8_size, append_string, extend, split-append, peel_string-append,
  append_string-eq-ok, checked_u8_size-eq-ok, extend-eq-ok,
}
use twinleaf_rust.Proto.DataType.{
  DataType, data_type_from, data_type_into, IsDataType, data_type_from-into,
}

pub record ColumnMetadata : Type 0 where
  pub stream_id : ℕ
  pub index : ℕ
  pub data_type : DataType
  pub name : Text
  pub units : Text
  pub description : Text

unfoldable pub deserialize : Bytes → Bytes → Result (ColumnMetadata × Bytes × Bytes) Error
deserialize raw full_data = do
  (fixed, varlen) ← split raw full_data
  refuse (ltb (length fixed) 7) (too_small full_data)
  (name, varlen) ← peel_string varlen (byte fixed 4) full_data
  (units, varlen) ← peel_string varlen (byte fixed 5) full_data
  (desc, varlen) ← peel_string varlen (byte fixed 6) full_data
  refuse (ltb 7 (length fixed) && ltb 0 (length varlen)) (invalid_payload full_data)
  let m : ColumnMetadata = record {
    stream_id = byte fixed 1;
    index = byte fixed 2;
    data_type = data_type_from (byte fixed 3);
    name = name;
    units = units;
    description = desc;
  }
  ok (m, drop 7 fixed, varlen)

unfoldable pub serialize : ColumnMetadata → Bytes → Bytes → Result (Bytes × Bytes) (Unit {0})
serialize m extra_fixed extra_varlen = do
  index ← checked_u8_size m.index
  (name_len, varlen) ← append_string [] m.name
  (units_len, varlen) ← append_string varlen m.units
  (desc_len, varlen) ← append_string varlen m.description
  extend
      (7 ∷ m.stream_id ∷ index ∷ data_type_into m.data_type ∷ name_len ∷ units_len ∷ desc_len ∷ [])
      varlen extra_fixed extra_varlen

pub record IsValid (m : ColumnMetadata) : Type 0 where
  pub type_known : IsDataType m.data_type
  pub name_utf8 : IsUtf8 m.name
  pub units_utf8 : IsUtf8 m.units
  pub description_utf8 : IsUtf8 m.description

-- The two parts that `serialize` writes.
abbrev pub fixed_part : ColumnMetadata → Bytes → Bytes
fixed_part m extra_fixed =
    m.stream_id
    ∷ m.index
    ∷ data_type_into m.data_type
    ∷ length m.name
    ∷ length m.units
    ∷ length m.description
    ∷ extra_fixed

abbrev pub varlen_part : ColumnMetadata → Bytes → Bytes
varlen_part m extra_varlen = m.name ++ (m.units ++ (m.description ++ extra_varlen))

pub serialize-eq-ok :
    (m : ColumnMetadata) (extra_fixed extra_varlen f v : Bytes)
    → serialize m extra_fixed extra_varlen ≡ ok (f, v)
    → (f ≡ (7 + length extra_fixed) ∷ fixed_part m extra_fixed) × (v ≡ varlen_part m extra_varlen)
unfolding serialize
serialize-eq-ok m extra_fixed extra_varlen f v e =
    let a = checked_u8_size-eq-ok m.index _ e in
    let b = append_string-eq-ok [] m.name _ a.1 in
    let c = append_string-eq-ok m.name m.units _ b.1 in
    let d = append_string-eq-ok (m.name ++ m.units) m.description _ c.1 in
    let x = extend-eq-ok 7 _ _ extra_fixed extra_varlen f v d.1 in (x.0, x.1 ∙ simp append_assoc)

pub deserialize_parts :
    (m : ColumnMetadata) (extra_fixed extra_varlen full_data : Bytes)
    → IsValid m
    → deserialize
        ((7 + length extra_fixed) ∷ (fixed_part m extra_fixed ++ varlen_part m extra_varlen))
        full_data
      ≡ (if ltb 0 (length extra_fixed) && ltb 0 (length extra_varlen)
          then err (invalid_payload full_data)
          else ok (m, extra_fixed, extra_varlen))
unfolding deserialize
deserialize_parts m extra_fixed extra_varlen full_data w =
    rw
      (split-append (7 + length extra_fixed) (fixed_part m extra_fixed) (varlen_part m extra_varlen)
        full_data (omega arith) (omega arith))
      (rw (peel_string-append m.name _ full_data _ refl w.name_utf8) (
        rw (peel_string-append m.units _ full_data _ refl w.units_utf8) (
          rw (peel_string-append m.description extra_varlen full_data _ refl w.description_utf8)
            (rw (data_type_from-into m.data_type w.type_known) (ground arith)))))
