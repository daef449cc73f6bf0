-- ===== src/Proto/DataType.antt =====
-- `DataType` of twinleaf/src/tio/proto.rs. The high nibble of a type's number is its size in bytes.
use twinleaf_rust.Shared.{ℕ, ◌≡◌, refl, ◌==◌, if◌then◌else◌, ◌/◌, ◌^◌}

pub data DataType : Type 0 where
  uint8 int8 uint16 int16 uint24 int24 uint32 int32 : DataType
  uint64 int64 float32 float64 : DataType
  unknown : ℕ → DataType

unfoldable pub data_type_from : ℕ → DataType
data_type_from b =
    if b == 0x10
    then uint8
    else if b == 0x11
    then int8
    else if b == 0x20
    then uint16
    else if b == 0x21
    then int16
    else if b == 0x30
    then uint24
    else if b == 0x31
    then int24
    else if b == 0x40
    then uint32
    else if b == 0x41
    then int32
    else if b == 0x80
    then uint64
    else if b == 0x81
    then int64
    else if b == 0x42
    then float32
    else if b == 0x82
    then float64
    else unknown b

unfoldable pub data_type_into : DataType → ℕ
data_type_into uint8 = 0x10
data_type_into int8 = 0x11
data_type_into uint16 = 0x20
data_type_into int16 = 0x21
data_type_into uint24 = 0x30
data_type_into int24 = 0x31
data_type_into uint32 = 0x40
data_type_into int32 = 0x41
data_type_into uint64 = 0x80
data_type_into int64 = 0x81
data_type_into float32 = 0x42
data_type_into float64 = 0x82
data_type_into (unknown b) = b

unfoldable pub size : DataType → ℕ
unfolding data_type_into
size t = data_type_into t / 2 ^ 4

-- The catch-all holds no number of a named type.
abbrev pub IsDataType : DataType → Type 0
IsDataType (unknown b) = data_type_from b ≡ unknown b
IsDataType uint8 = Unit
IsDataType _ = Unit

pub data_type_from-into : (t : DataType) → IsDataType t → data_type_from (data_type_into t) ≡ t
unfolding data_type_from data_type_into
data_type_from-into (unknown b) h = h
data_type_from-into uint8 h = refl
data_type_from-into _ h = refl
