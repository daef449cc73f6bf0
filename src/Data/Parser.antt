-- ===== src/Data/Parser.antt =====
-- `DeviceDataParser` of twinleaf/src/data/mod.rs: the metadata of a device, the requests for what is
-- missing, and the parsing of packets into samples.
pub mod Layout
pub mod Reached
use twinleaf_rust.Shared.{
  ℕ, zero, suc, ◌+◌, ◌%◌, Bool, true, false, not, ◌&&◌, ◌||◌, List, [], ◌∷◌, ◌++◌, ltb, ◌==◌,
  if◌then◌else◌, length, Result, ok, err, ◌>>=◌, Option, some, none, lookup, insert,
}
use twinleaf_rust.Data.Equal.{stream_eq, segment_eq, column_eq}
use twinleaf_rust.Data.Metarep.{parse_metarep}
use twinleaf_rust.Data.Requests
use twinleaf_rust.Data.Requests.{StreamRpcMetaReq, metareqs_to_rpcs}
use twinleaf_rust.Data.Stop.{Stop, unwrap, unwrap_some}
use twinleaf_rust.Data.Stream
use twinleaf_rust.Data.Stream.{
  DeviceStream, DeviceColumn, DeviceStreamMetadata, Sample, fresh, process_samples,
}
use twinleaf_rust.Proto.DataType.{size}
use twinleaf_rust.Proto.Heartbeat.{session}
use twinleaf_rust.Proto.Meta.Column.{ColumnMetadata}
use twinleaf_rust.Proto.Meta.Device.{DeviceMetadata}
use twinleaf_rust.Proto.Meta.Payload.{MetadataContent, device, stream, segment, column, unknown}
use twinleaf_rust.Proto.Meta.Segment.{SegmentMetadata}
use twinleaf_rust.Proto.Meta.Stream.{StreamMetadata}
use twinleaf_rust.Proto.Packet.{Packet}
use twinleaf_rust.Proto.Payload.{Payload, rpc_reply, metadata, heartbeat, stream_data}
use twinleaf_rust.Proto.Route.{bytes_eq}
use twinleaf_rust.Proto.StreamData.{StreamDataPayload}

pub record DeviceFullMetadata : Type 0 where
  pub device : DeviceMetadata
  pub streams : List (ℕ × DeviceStreamMetadata)

pub record DeviceDataParser : Type 0 where
  pub device : Option DeviceMetadata
  pub streams : List (ℕ × DeviceStream)
  pub ignore_session : Bool

unfoldable pub new : Bool → DeviceDataParser
new ignore_session = record { device = none; streams = []; ignore_session = ignore_session }

-- `self.device.take(); self.streams.clear();`
unfoldable pub reload : DeviceDataParser → DeviceDataParser
reload p = record p { device = none; streams = [] }

unfoldable pub put_stream : ℕ → DeviceStream → DeviceDataParser → DeviceDataParser
put_stream id s p = record p { streams = insert id s p.streams }

unfoldable pub found_stream :
    DeviceDataParser → ℕ → Option DeviceStream → DeviceDataParser × DeviceStream
unfolding put_stream fresh
found_stream p id (some s) = (p, s)
found_stream p id none = (put_stream id (fresh id) p, fresh id)

-- The stream, and the parser with it in the map.
unfoldable pub get_stream : DeviceDataParser → ℕ → DeviceDataParser × DeviceStream
unfolding found_stream
get_stream p id = found_stream p id (lookup id p.streams)

unfoldable pub is_beyond : Option DeviceMetadata → ℕ → Bool
is_beyond (some dev) id = ltb dev.n_streams id
is_beyond none id = false

-- An id beyond the device's streams forces a reload.
unfoldable pub check_id : DeviceDataParser → ℕ → DeviceDataParser
unfolding is_beyond reload
check_id p id = if is_beyond p.device id then reload p else p

unfoldable pub device_metadata :
    DeviceDataParser → Option DeviceMetadata → DeviceMetadata → DeviceDataParser
device_metadata p none dm = record p { device = some dm }
device_metadata p (some cur) dm =
    if not (bytes_eq cur.serial_number dm.serial_number)
      || not (cur.session_id == dm.session_id)
      || not (bytes_eq cur.firmware_hash dm.firmware_hash)
    then record p { device = some dm; streams = [] }
    else if not (cur.n_streams == dm.n_streams)
    then record p { device = some dm }
    else p

unfoldable pub stream_metadata :
    DeviceDataParser × DeviceStream → Option StreamMetadata → StreamMetadata → DeviceDataParser
unfolding reload put_stream stream_eq
stream_metadata (p, s) (some known) sm = if not (stream_eq known sm) then reload p else p
stream_metadata (p, s) none sm =
    put_stream sm.stream_id (record s { stream = some sm; meta_changed = true }) p

unfoldable pub new_segment : DeviceStream → SegmentMetadata → Bool → DeviceStream
new_segment s sm from_update = record s {
  segment = some sm;
  segment_changed = true;
  last_seg = if from_update then sm.segment_id else s.last_seg;
}

unfoldable pub segment_metadata :
    DeviceDataParser × DeviceStream
    → Option SegmentMetadata
    → SegmentMetadata
    → Bool
    → DeviceDataParser
unfolding put_stream segment_eq new_segment
segment_metadata (p, s) (some known) sm from_update =
    if not (segment_eq known sm)
    then put_stream sm.stream_id (new_segment s sm from_update) p
    else p
segment_metadata (p, s) none sm from_update =
    put_stream sm.stream_id (new_segment s sm from_update) p

-- `columns[index].metadata != cm`, behind a check of the index.
unfoldable pub column_differs : List DeviceColumn → ℕ → ColumnMetadata → Bool
unfolding column_eq
column_differs [] index cm = false
column_differs (col ∷ cols) zero cm = not (column_eq col.metadata cm)
column_differs (col ∷ cols) (suc index) cm = column_differs cols index cm

-- Where the column of the index ends, behind a check of the index.
unfoldable pub column_end : List DeviceColumn → ℕ → ℕ
unfolding size
column_end [] index = 0
column_end (col ∷ cols) zero = col.offset + size col.metadata.data_type
column_end (col ∷ cols) (suc index) = column_end cols index

unfoldable pub column_offset : List DeviceColumn → ℕ → ℕ
unfolding column_end
column_offset cols zero = 0
column_offset cols (suc index) = column_end cols index

unfoldable pub column_metadata : DeviceDataParser × DeviceStream → ColumnMetadata → DeviceDataParser
unfolding reload put_stream column_differs column_offset
column_metadata (p, s) cm =
    if ltb cm.index (length s.columns)
    then (if column_differs s.columns cm.index cm then reload p else p)
    else if cm.index == length s.columns
    then (let next : DeviceColumn = record {
      metadata = cm;
      offset = column_offset s.columns cm.index;
    } in
        put_stream cm.stream_id (record s { columns = s.columns ++ (next ∷ []) }) p)
    else p

unfoldable pub process_metadata : DeviceDataParser → MetadataContent → Bool → DeviceDataParser
unfolding device_metadata stream_metadata segment_metadata column_metadata get_stream check_id
process_metadata p (device dm) from_update = device_metadata p p.device dm
process_metadata p (stream sm) from_update =
    let found = get_stream (check_id p sm.stream_id) sm.stream_id in
    stream_metadata found found.1.stream sm
process_metadata p (segment sm) from_update =
    let found = get_stream (check_id p sm.stream_id) sm.stream_id in
    segment_metadata found found.1.segment sm from_update
process_metadata p (column cm) from_update =
    column_metadata (get_stream (check_id p cm.stream_id) cm.stream_id) cm
process_metadata p (unknown mtype) from_update = p

-- `for metadata in parse_metarep(reply)`
unfoldable pub process_reply : DeviceDataParser → List MetadataContent → DeviceDataParser
unfolding process_metadata
process_reply p [] = p
process_reply p (c ∷ cs) = process_reply (process_metadata p c false) cs

unfoldable pub session_changed : Bool → Option DeviceMetadata → ℕ → Bool
session_changed ignore_session (some dev) id = not (dev.session_id == id) && not ignore_session
session_changed ignore_session none id = false

-- Data are parsed only for a device that is known.
unfoldable pub process_data :
    DeviceDataParser
    → Option DeviceMetadata
    → StreamDataPayload
    → Result (DeviceDataParser × List Sample) Stop
unfolding reload get_stream process_samples put_stream
process_data p none payload = ok (p, [])
process_data p (some dev) payload =
    if ltb dev.n_streams payload.stream_id then ok (reload p, []) else (do
      let (p', s) = get_stream p payload.stream_id
      (s', samples) ← process_samples s payload dev
      ok (put_stream payload.stream_id s' p', samples))

unfoldable pub process_payload :
    DeviceDataParser → Payload → Result (DeviceDataParser × List Sample) Stop
unfolding process_reply process_metadata session_changed process_data parse_metarep reload
process_payload p (rpc_reply rep) = do
  found ← parse_metarep rep.reply
  ok (process_reply p found, [])
process_payload p (metadata mp) = ok (process_metadata p mp.content true, [])
process_payload p (heartbeat (session id)) =
    ok ((if session_changed p.ignore_session p.device id then reload p else p), [])
process_payload p (stream_data payload) = process_data p p.device payload
process_payload p payload = ok (p, [])

unfoldable pub process_packet :
    DeviceDataParser → Packet → Result (DeviceDataParser × List Sample) Stop
unfolding process_payload
process_packet p pkt = process_payload p pkt.payload

unfoldable pub stream_requests : Option DeviceStream → ℕ → List StreamRpcMetaReq
unfolding Stream.requests
stream_requests (some s) id = Stream.requests s
stream_requests none id = Requests.stream id ∷ []

-- The requests for the streams from number `i` on; `(i + 1) as u8` is the id.
unfoldable pub streams_requests : ℕ → ℕ → List (ℕ × DeviceStream) → List StreamRpcMetaReq
unfolding stream_requests
streams_requests zero i streams = []
streams_requests (suc count) i streams =
    let stream_id = (i + 1) % 256 in
    stream_requests (lookup stream_id streams) stream_id ++ streams_requests count (suc i) streams

unfoldable pub metareqs : DeviceDataParser → Option DeviceMetadata → List StreamRpcMetaReq
unfolding streams_requests
metareqs p (some dev) = streams_requests dev.n_streams 0 p.streams
metareqs p none = Requests.device ∷ []

unfoldable pub requests : DeviceDataParser → Result (List Packet) Stop
unfolding metareqs metareqs_to_rpcs
requests p = metareqs_to_rpcs (metareqs p p.device)

unfoldable pub streams_metadata :
    List (ℕ × DeviceStream) → Result (List (ℕ × DeviceStreamMetadata)) Stop
unfolding Stream.get_metadata
streams_metadata [] = ok []
streams_metadata ((id, s) ∷ streams) = do
  answer ← Stream.get_metadata s
  found ← unwrap answer
  rest ← streams_metadata streams
  ok ((id, found) ∷ rest)

-- `err` holds the requests that are left to make.
unfoldable pub get_metadata :
    DeviceDataParser → Result (Result DeviceFullMetadata (List Packet)) Stop
unfolding requests streams_metadata
get_metadata p = do
  reqs ← requests p
  if length reqs == 0
      then (do
        streams ← streams_metadata p.streams
        dev ← unwrap_some p.device
        ok (ok (record { device = dev; streams = streams })))
      else ok (err reqs)
