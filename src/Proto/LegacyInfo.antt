-- ===== src/Proto/LegacyInfo.antt =====
-- The legacy payloads that are only declared: twinleaf/src/tio/proto/legacy.rs. No code reads or
-- writes them: on the wire they pass as generic payloads.
use twinleaf_rust.Shared.{ℕ, List, Bytes}
use twinleaf_rust.Proto.DataType.{DataType}

pub data LegacyTimebaseSource : Type 0 where
  invalid_source local global : LegacyTimebaseSource
  unknown_source : ℕ → LegacyTimebaseSource

pub data LegacyTimebaseEpoch : Type 0 where
  invalid_epoch start sys_time unix gps : LegacyTimebaseEpoch
  unknown_epoch : ℕ → LegacyTimebaseEpoch

-- `stability` is an `f32`, kept as the number of its bits.
pub record LegacyTimebaseInfoPayload : Type 0 where
  pub id : ℕ
  pub source : LegacyTimebaseSource
  pub epoch : LegacyTimebaseEpoch
  pub start_time : ℕ
  pub period_numerator_us : ℕ
  pub period_denominator_us : ℕ
  pub flags : ℕ
  pub stability : ℕ
  pub source_id : Bytes

-- `_fmt` is an `i32`, kept as the number of its bits.
pub record LegacySourceInfoPayload : Type 0 where
  pub id : ℕ
  pub timebase_id : ℕ
  pub period : ℕ
  pub offset : ℕ
  pub fmt : ℕ
  pub flags : ℕ
  pub channels : ℕ
  pub datatype : DataType

pub record LegacyStreamComponentInfo : Type 0 where
  pub source_id : ℕ
  pub flags : ℕ
  pub period : ℕ
  pub offset : ℕ

pub record LegacyStreamInfoPayload : Type 0 where
  pub id : ℕ
  pub timebase_id : ℕ
  pub period : ℕ
  pub offset : ℕ
  pub sample_number : ℕ
  pub flags : ℕ
  pub components : List LegacyStreamComponentInfo
