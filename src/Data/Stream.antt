-- ===== src/Data/Stream.antt =====
-- `DeviceStream` of twinleaf/src/data/mod.rs: what is known of a stream, the requests for what is
-- not, and the samples that its data are parsed into.
pub mod Samples
use twinleaf_rust.Shared.{
  ℕ, zero, suc, ◌+◌, ◌-◌, ◌/◌, ◌%◌, Bool, true, false, not, ◌&&◌, ◌||◌, List, [], ◌∷◌, ◌++◌, ltb,
  leb, ◌==◌, if◌then◌else◌, length, take, drop, map, Bytes, Result, ok, err, ◌>>=◌, ◌>>◌, refuse,
  Option, some, none,
}
use twinleaf_rust.Data.Column.{Column, column_from_le_bytes}
use twinleaf_rust.Data.Requests
use twinleaf_rust.Data.Requests.{StreamRpcMetaReq}
use twinleaf_rust.Data.Stop.{Stop, panicked, out_of_fuel, unwrap_some}
use twinleaf_rust.Proto.Meta.Column.{ColumnMetadata}
use twinleaf_rust.Proto.Meta.Device.{DeviceMetadata}
use twinleaf_rust.Proto.Meta.Segment.{SegmentMetadata}
use twinleaf_rust.Proto.Meta.Stream.{StreamMetadata}
use twinleaf_rust.Proto.StreamData.{StreamDataPayload}

pub record Sample : Type 0 where
  pub n : ℕ
  pub columns : List Column
  pub segment : SegmentMetadata
  pub stream : StreamMetadata
  pub device : DeviceMetadata
  pub segment_changed : Bool
  pub meta_changed : Bool

pub record DeviceStreamMetadata : Type 0 where
  pub stream : StreamMetadata
  pub segment : SegmentMetadata
  pub columns : List ColumnMetadata

pub record DeviceColumn : Type 0 where
  pub metadata : ColumnMetadata
  pub offset : ℕ

pub record DeviceStream : Type 0 where
  pub stream : Option StreamMetadata
  pub segment : Option SegmentMetadata
  pub columns : List DeviceColumn
  pub id : ℕ
  pub last_seg : ℕ
  pub last_sample_number : ℕ
  pub segment_changed : Bool
  pub meta_changed : Bool

-- What `get_stream` of the parser makes of an id it does not know.
unfoldable pub fresh : ℕ → DeviceStream
fresh stream_id = record {
  stream = none;
  segment = none;
  columns = [];
  id = stream_id;
  last_seg = 0;
  last_sample_number = 0;
  segment_changed = true;
  meta_changed = true;
}

-- `column(i as u8, id)` for each of `count` numbers from `i` on.
unfoldable pub column_requests : ℕ → ℕ → ℕ → List StreamRpcMetaReq
column_requests zero i id = []
column_requests (suc count) i id = Requests.column (i % 256) id ∷ column_requests count (suc i) id

unfoldable pub constant_requests : DeviceStream → Option StreamMetadata → List StreamRpcMetaReq
unfolding column_requests
constant_requests s (some stream) =
    column_requests (stream.n_columns - length s.columns) (length s.columns) s.id
constant_requests s none = Requests.stream s.id ∷ []

unfoldable pub is_stale : DeviceStream → Option SegmentMetadata → Bool
is_stale s (some seg) = not (seg.segment_id == s.last_seg)
is_stale s none = true

unfoldable pub requests : DeviceStream → List StreamRpcMetaReq
unfolding constant_requests is_stale
requests s =
    constant_requests s s.stream
    ++ (if is_stale s s.segment then Requests.segment s.last_seg s.id ∷ [] else [])

-- `&data[offset..]` panics behind the end.
unfoldable pub parse_columns : List DeviceColumn → Bytes → Result (List Column) Stop
parse_columns [] raw = ok []
parse_columns (col ∷ cols) raw = do
  refuse (ltb (length raw) col.offset) panicked
  column ← column_from_le_bytes (drop col.offset raw) col.metadata
  columns ← parse_columns cols raw
  ok (column ∷ columns)

unfoldable pub parse_sample : DeviceStream → Bytes → Result (List Column) Stop
unfolding parse_columns
parse_sample s raw = parse_columns s.columns raw

-- The samples in the data from an offset on, with the first one's number. The stream's flags are
-- cleared with the first sample.
unfoldable pub samples_loop :
    ℕ
    → DeviceStream
    → StreamMetadata
    → SegmentMetadata
    → DeviceMetadata
    → ℕ
    → Bytes
    → Result (DeviceStream × List Sample) Stop
unfolding parse_sample
samples_loop fuel s stream segment dev sample_n [] = ok (s, [])
samples_loop zero s stream segment dev sample_n (b ∷ raw) = err out_of_fuel
samples_loop (suc fuel) s stream segment dev sample_n (b ∷ raw) = do
  refuse (ltb (length (b ∷ raw)) stream.sample_size) panicked
  columns ← parse_sample s (take stream.sample_size (b ∷ raw))
  refuse (leb 0xFFFFFFFF sample_n) panicked
  let sample : Sample = record {
    n = sample_n;
    columns = columns;
    segment = segment;
    stream = stream;
    device = dev;
    segment_changed = s.segment_changed;
    meta_changed = s.meta_changed;
  }
  let shown = record s { segment_changed = false; meta_changed = false }
  (s', samples) ←
      samples_loop fuel shown stream segment dev (suc sample_n) (drop stream.sample_size (b ∷ raw))
  ok (s', sample ∷ samples)

-- Sample size zero never gets to the end; with another one the length of the data is enough fuel.
unfoldable pub read_samples :
    DeviceStream
    → StreamMetadata
    → SegmentMetadata
    → DeviceMetadata
    → StreamDataPayload
    → Result (DeviceStream × List Sample) Stop
unfolding samples_loop
read_samples s stream segment dev p =
    samples_loop (length p.samples) s stream segment dev p.first_sample_n p.samples

-- The number of the segment that follows when the sample number rolls over.
unfoldable pub next_segment : StreamMetadata → SegmentMetadata → Result ℕ Stop
next_segment stream segment =
    if segment.segment_id == stream.n_segments
    then ok 0
    else if leb 255 segment.segment_id
    then err panicked
    else ok (segment.segment_id + 1)

-- Data of another segment than the one that is known: the next one, if the number of samples looks
-- like a rollover, or `none`. Division by zero and overflow panic.
unfoldable pub rolled_over :
    DeviceStream
    → StreamMetadata
    → SegmentMetadata
    → StreamDataPayload
    → Result (Option SegmentMetadata) Stop
unfolding next_segment
rolled_over s stream segment p = do
  refuse (leb 0xFFFFFFFF s.last_sample_number) panicked
  let next_sample = s.last_sample_number + 1
  expected ← next_segment stream segment
  refuse (segment.decimation == 0) panicked
  let rate = segment.sampling_rate / segment.decimation
  refuse (p.first_sample_n == 0 && rate == 0) panicked
  if p.first_sample_n == 0 && (next_sample % rate == 0) && p.segment_id == expected
      then (if leb 0x100000000 (segment.start_time + next_sample / rate)
          then err panicked
          else ok (some (record segment { start_time = segment.start_time + next_sample / rate })))
      else ok none

unfoldable pub read_segment :
    DeviceStream
    → StreamMetadata
    → SegmentMetadata
    → DeviceMetadata
    → StreamDataPayload
    → Result (DeviceStream × List Sample) Stop
unfolding rolled_over read_samples
read_segment s stream segment dev p =
    if segment.segment_id == p.segment_id
    then read_samples s stream segment dev p
    else (rolled_over s stream segment p >>= λ next. elim next [
      | none ↦ ok (s, [])
      | some new_seg ↦ read_samples (record s { segment = some new_seg }) stream new_seg dev p
    ])

-- The last segment is kept first, for the request that follows when nothing can be parsed.
unfoldable pub process_known :
    DeviceStream
    → Option StreamMetadata
    → Option SegmentMetadata
    → DeviceMetadata
    → StreamDataPayload
    → Result (DeviceStream × List Sample) Stop
unfolding read_segment
process_known s (some stream) (some segment) dev p =
    if not (stream.n_columns == length s.columns)
    then ok (s, [])
    else read_segment s stream segment dev p
process_known s none segment dev p = ok (s, [])
process_known s (some stream) none dev p = ok (s, [])

unfoldable pub process_samples :
    DeviceStream → StreamDataPayload → DeviceMetadata → Result (DeviceStream × List Sample) Stop
unfolding process_known
process_samples s p dev =
    process_known (record s { last_seg = p.segment_id }) s.stream s.segment dev p

unfoldable pub column_metadata : List DeviceColumn → List ColumnMetadata
column_metadata [] = []
column_metadata (col ∷ cols) = col.metadata ∷ column_metadata cols

-- `err` holds the requests that are left to make, and the outer result a failed `unwrap`.
unfoldable pub get_metadata :
    DeviceStream → Result (Result DeviceStreamMetadata (List StreamRpcMetaReq)) Stop
unfolding requests column_metadata
get_metadata s =
    let reqs = requests s in
    if length reqs == 0
    then (do
      stream ← unwrap_some s.stream
      segment ← unwrap_some s.segment
      ok (ok (record { stream = stream; segment = segment; columns = column_metadata s.columns })))
    else ok (err reqs)
