-- ===== src/Data/Column.antt =====
-- The columns of a sample: `ColumnData` and `Column` of twinleaf/src/data/mod.rs.
use twinleaf_rust.Shared.{
  ℕ, zero, suc, ◌+◌, ◌-◌, ◌*◌, ◌/◌, ◌%◌, ◌^◌, [], ◌∷◌, ◌++◌, ltb, leb, ◌==◌, if◌then◌else◌, length,
  take, Bytes, Result, ok, ◌>>=◌, ◌>>◌, refuse,
}
use twinleaf_rust.Data.Stop.{Stop, panicked}
use twinleaf_rust.Proto.DataType.{
  DataType, uint8, int8, uint16, int16, uint24, int24, uint32, int32, uint64, int64, float32,
  float64, unknown,
}
use twinleaf_rust.Proto.Meta.Column.{ColumnMetadata}
use twinleaf_rust.Util.Values.{ℤ, from_le_bytes, to_signed}

-- A float is the number of the bits of its `f64`.
pub data ColumnData : Type 0 where
  int : ℤ → ColumnData
  uint : ℕ → ColumnData
  float : ℕ → ColumnData
  unknown_data : ColumnData

pub record Column : Type 0 where
  pub value : ColumnData
  pub desc : ColumnMetadata

-- The place of the highest bit that is set, below `n`.
unfoldable pub top_bit : ℕ → ℕ → ℕ
top_bit zero m = 0
top_bit (suc n) m = let lower = top_bit n m in if leb (2 ^ n) m then n else lower

-- `f64::from` of an `f32`, on the bits: exact, with a subnormal number made normal.
unfoldable pub f64_from_f32 : ℕ → ℕ
unfolding top_bit
f64_from_f32 bits =
    let sign = bits / 2 ^ 31 * 2 ^ 63 in
    let exponent = bits / 2 ^ 23 % 2 ^ 8 in
    let mantissa = bits % 2 ^ 23 in
    if exponent == 255
    then sign + 2047 * 2 ^ 52 + mantissa * 2 ^ 29
    else if leb 1 exponent
    then sign + (exponent + 896) * 2 ^ 52 + mantissa * 2 ^ 29
    else if mantissa == 0
    then sign
    else let top = top_bit 23 mantissa in
      sign + (top + 874) * 2 ^ 52 + (mantissa - 2 ^ top) * 2 ^ (52 - top)

-- `[data[0], .., data[n - 1]]`
unfoldable pub leading : ℕ → Bytes → Result Bytes Stop
leading n data_bytes = do refuse (ltb (length data_bytes) n) panicked; ok (take n data_bytes)

unfoldable pub column_value : DataType → Bytes → Result ColumnData Stop
unfolding leading from_le_bytes to_signed f64_from_f32
column_value int8 raw = do b ← leading 1 raw; ok (int (to_signed 1 (from_le_bytes b)))
column_value uint8 raw = do b ← leading 1 raw; ok (uint (from_le_bytes b))
column_value int16 raw = do b ← leading 2 raw; ok (int (to_signed 2 (from_le_bytes b)))
column_value uint16 raw = do b ← leading 2 raw; ok (uint (from_le_bytes b))
column_value int24 raw = do
  b ← leading 3 raw
  ok (int (to_signed 4 (from_le_bytes (b ++ (0 ∷ [])))))
column_value uint24 raw = do b ← leading 3 raw; ok (uint (from_le_bytes (b ++ (0 ∷ []))))
column_value int32 raw = do b ← leading 4 raw; ok (int (to_signed 4 (from_le_bytes b)))
column_value uint32 raw = do b ← leading 4 raw; ok (uint (from_le_bytes b))
column_value int64 raw = do b ← leading 8 raw; ok (int (to_signed 8 (from_le_bytes b)))
column_value uint64 raw = do b ← leading 8 raw; ok (uint (from_le_bytes b))
column_value float32 raw = do b ← leading 4 raw; ok (float (f64_from_f32 (from_le_bytes b)))
column_value float64 raw = do b ← leading 8 raw; ok (float (from_le_bytes b))
column_value (unknown t) raw = ok unknown_data

unfoldable pub column_from_le_bytes : Bytes → ColumnMetadata → Result Column Stop
unfolding column_value
column_from_le_bytes raw md = do
  value ← column_value md.data_type raw
  ok (record { value = value; desc = md })
