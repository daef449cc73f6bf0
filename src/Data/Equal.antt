-- ===== src/Data/Equal.antt =====
-- `==` as it is derived for the metadata of twinleaf/src/tio/proto/meta.rs that the sample parser of
-- twinleaf/src/data/mod.rs compares.
use twinleaf_rust.Shared.{ℕ, ◌+◌, ◌/◌, ◌%◌, ◌^◌, Bool, not, ◌&&◌, ◌||◌, ◌==◌}
use twinleaf_rust.Proto.DataType.{
  DataType, uint8, int8, uint16, int16, uint24, int24, uint32, int32, uint64, int64, float32,
  float64, unknown,
}
use twinleaf_rust.Proto.Meta.Column.{ColumnMetadata}
use twinleaf_rust.Proto.Meta.Segment.{
  SegmentMetadata, MetadataEpoch, invalid, zero_epoch, systime, unix, MetadataFilter, unfiltered,
  first_order_cascade1, first_order_cascade2, unknown_filter,
}
use twinleaf_rust.Proto.Meta.Segment as Segment
use twinleaf_rust.Proto.Meta.Stream.{StreamMetadata}
use twinleaf_rust.Proto.Route.{bytes_eq}

-- `==` on `f32`, on the bits: a NaN differs from itself, and the zeros are equal.
is_nan : ℕ → Bool
is_nan x = x / 2 ^ 23 % 2 ^ 8 == 255 && not (x % 2 ^ 23 == 0)

unfoldable pub f32_eq : ℕ → ℕ → Bool
unfolding is_nan
f32_eq x y = not (is_nan x) && not (is_nan y) && (x == y || (x % 2 ^ 31 == 0 && y % 2 ^ 31 == 0))

unfoldable pub data_type_variant : DataType → ℕ
data_type_variant uint8 = 0
data_type_variant int8 = 1
data_type_variant uint16 = 2
data_type_variant int16 = 3
data_type_variant uint24 = 4
data_type_variant int24 = 5
data_type_variant uint32 = 6
data_type_variant int32 = 7
data_type_variant uint64 = 8
data_type_variant int64 = 9
data_type_variant float32 = 10
data_type_variant float64 = 11
data_type_variant (unknown b) = 12 + b

unfoldable pub epoch_variant : MetadataEpoch → ℕ
epoch_variant invalid = 0
epoch_variant zero_epoch = 1
epoch_variant systime = 2
epoch_variant unix = 3
epoch_variant (Segment.unknown b) = 4 + b

unfoldable pub filter_variant : MetadataFilter → ℕ
filter_variant unfiltered = 0
filter_variant first_order_cascade1 = 1
filter_variant first_order_cascade2 = 2
filter_variant (unknown_filter b) = 3 + b

unfoldable pub stream_eq : StreamMetadata → StreamMetadata → Bool
unfolding bytes_eq
stream_eq a b =
    a.stream_id == b.stream_id
    && bytes_eq a.name b.name
    && a.n_columns == b.n_columns
    && a.n_segments == b.n_segments
    && a.sample_size == b.sample_size
    && a.buf_samples == b.buf_samples

unfoldable pub segment_eq : SegmentMetadata → SegmentMetadata → Bool
unfolding bytes_eq f32_eq epoch_variant filter_variant
segment_eq a b =
    a.stream_id == b.stream_id
    && a.segment_id == b.segment_id
    && a.flags == b.flags
    && epoch_variant a.time_ref_epoch == epoch_variant b.time_ref_epoch
    && bytes_eq a.time_ref_serial b.time_ref_serial
    && a.time_ref_session_id == b.time_ref_session_id
    && a.start_time == b.start_time
    && a.sampling_rate == b.sampling_rate
    && a.decimation == b.decimation
    && f32_eq a.filter_cutoff b.filter_cutoff
    && filter_variant a.filter_type == filter_variant b.filter_type

unfoldable pub column_eq : ColumnMetadata → ColumnMetadata → Bool
unfolding bytes_eq data_type_variant
column_eq a b =
    a.stream_id == b.stream_id
    && a.index == b.index
    && data_type_variant a.data_type == data_type_variant b.data_type
    && bytes_eq a.name b.name
    && bytes_eq a.units b.units
    && bytes_eq a.description b.description
