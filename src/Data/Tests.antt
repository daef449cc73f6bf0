-- ===== src/Data/Tests.antt =====
-- Runs of the sample parser.
use twinleaf_rust.Shared.{
  ◌+◌, ◌≡◌, refl, true, false, [], ◌∷◌, List, arith, Bytes, ok, err, some, none, lookup, insert,
  remove,
}
use twinleaf_rust.Text.{IsAscii-IsUtf8}
use twinleaf_rust.Data.Column.{column_value, leading, int}
use twinleaf_rust.Data.Device
use twinleaf_rust.Data.Device.{Device, internal_rpcs}
use twinleaf_rust.Data.Device.Pending.{created, asked, Ran-IsBalanced}
use twinleaf_rust.Data.Device.Account.{requests_in}
use twinleaf_rust.Proxy.Port
use twinleaf_rust.Proxy.Port.{Port}
use twinleaf_rust.Data.Requests.Packing.{metadata_rpc}
use twinleaf_rust.Data.Metarep.{parse_metarep, metarep_loop}
use twinleaf_rust.Data.Metarep.RoundTrip.{IsReply, no_entry, entry, parse_metarep-IsReply}
use twinleaf_rust.Data.Parser
use twinleaf_rust.Data.Parser.{DeviceDataParser, put_stream}
use twinleaf_rust.Data.Parser.Layout.{IsStream, Laid, end_from}
use twinleaf_rust.Data.Parser.Reached.{Reached, start, next, Reached-IsStream}
use twinleaf_rust.Data.Requests
use twinleaf_rust.Data.Requests.{StreamRpcMetaReq, metareqs_to_rpcs}
use twinleaf_rust.Data.Requests.Packing.{Carries, metareqs_to_rpcs-Carries}
use twinleaf_rust.Data.Stop.{panicked, out_of_fuel}
use twinleaf_rust.Data.Stream
use twinleaf_rust.Data.Stream.{DeviceStream, DeviceColumn, Sample, fresh, process_samples}
use twinleaf_rust.Data.Stream.Samples.{IsRun, process_samples-IsRun}
use twinleaf_rust.Proto.DataType.{uint8, int16, int24, data_type_into, size}
use twinleaf_rust.Proto.Meta.Column
use twinleaf_rust.Proto.Meta.Column.{ColumnMetadata}
use twinleaf_rust.Proto.Meta.Device.{DeviceMetadata}
use twinleaf_rust.Proto.Meta.Payload as Metadata
use twinleaf_rust.Proto.Meta.Payload.{MetadataContent, column}
use twinleaf_rust.Proto.Meta.Payload.RoundTrip.{IsContent}
use twinleaf_rust.Proto.Meta.Segment.{SegmentMetadata, zero_epoch, unfiltered}
use twinleaf_rust.Proto.Meta.Stream.{StreamMetadata}
use twinleaf_rust.Proto.Packet.{Packet}
use twinleaf_rust.Proto.Payload.{metadata}
use twinleaf_rust.Proto.Route.{root}
use twinleaf_rust.Proto.StreamData.{StreamDataPayload}
use twinleaf_rust.Proto.Vararg.{append_string, checked_u8_size, extend}
use twinleaf_rust.Util.Values.{pos, from_le_bytes, to_signed}

-- Three bytes with the top bit set are no negative number.
int24_minus_one : column_value int24 (255 ∷ 255 ∷ 255 ∷ []) ≡ ok (int (pos 16777215))
unfolding column_value leading from_le_bytes to_signed
int24_minus_one = refl

-- A reply that is cut within an entry.
cut_reply : parse_metarep (1 ∷ 9 ∷ 9 ∷ []) ≡ err panicked
unfolding parse_metarep metarep_loop
cut_reply = refl

metareqs_to_rpcs-Carries_example :
    (rpcs : List Packet) × (metareqs_to_rpcs (Requests.stream 1 ∷ Requests.segment 0 1 ∷ [])
      ≡ ok rpcs)
    × Carries (Requests.stream 1 ∷ Requests.segment 0 1 ∷ []) rpcs
metareqs_to_rpcs-Carries_example =
    metareqs_to_rpcs-Carries (Requests.stream 1 ∷ Requests.segment 0 1 ∷ [])

abbrev first_column : ColumnMetadata
first_column = record {
  stream_id = 1;
  index = 0;
  data_type = uint8;
  name = 65 ∷ [];
  units = [];
  description = [];
}

abbrev second_column : ColumnMetadata
second_column = record {
  stream_id = 1;
  index = 1;
  data_type = int16;
  name = 66 ∷ [];
  units = [];
  description = [];
}

abbrev column_fixed : Bytes
column_fixed = 7 ∷ 1 ∷ 0 ∷ 0x10 ∷ 1 ∷ 0 ∷ 0 ∷ []

write_first :
    Metadata.write_content (column first_column) [] []
    ≡ ok (column_fixed, 65 ∷ [], Metadata.column_type)
unfolding Metadata.write_content Column.serialize append_string checked_u8_size extend
    data_type_into
write_first = refl

first-IsContent : IsContent (column first_column) []
first-IsContent = record {
  type_known = tt;
  name_utf8 = IsAscii-IsUtf8 (65 ∷ []) (omega arith);
  units_utf8 = IsAscii-IsUtf8 [] tt;
  description_utf8 = IsAscii-IsUtf8 [] tt;
}

abbrev reply_bytes : Bytes
reply_bytes = 4 ∷ 8 ∷ 7 ∷ 1 ∷ 0 ∷ 0x10 ∷ 1 ∷ 0 ∷ 0 ∷ 65 ∷ []

reply-IsReply : IsReply (column first_column ∷ []) reply_bytes
unfolding Metadata.metadata_type_into
reply-IsReply = entry (column first_column) write_first first-IsContent no_entry

parse_metarep-IsReply_example : parse_metarep reply_bytes ≡ ok (column first_column ∷ [])
parse_metarep-IsReply_example =
    parse_metarep-IsReply (column first_column ∷ []) reply_bytes reply-IsReply

abbrev column_packet : Packet
column_packet = record {
  payload = metadata (record {
    content = column first_column;
    flags = 2;
    unknown_fixed = [];
    unknown_varlen = [];
  });
  routing = root;
  ttl = 0;
}

abbrev one_column : DeviceStream
one_column = record {
  stream = none;
  segment = none;
  columns = record { metadata = first_column; offset = 0 } ∷ [];
  id = 1;
  last_seg = 0;
  last_sample_number = 0;
  segment_changed = true;
  meta_changed = true;
}

abbrev one_column_parser : DeviceDataParser
one_column_parser = record { device = none; streams = (1, one_column) ∷ []; ignore_session = false }

processed : Parser.process_packet (Parser.new false) column_packet ≡ ok (one_column_parser, [])
unfolding Parser.process_packet Parser.process_payload Parser.process_metadata Parser.new
    Parser.column_metadata Parser.get_stream Parser.found_stream Parser.check_id Parser.is_beyond
    Parser.put_stream Parser.column_offset Stream.fresh lookup insert remove
processed = refl

parser-Reached : Reached one_column_parser
parser-Reached = next column_packet (start false) processed

found : lookup 1 one_column_parser.streams ≡ some one_column
unfolding lookup
found = refl

Reached-IsStream_example : IsStream 1 one_column
Reached-IsStream_example = Reached-IsStream one_column_parser 1 one_column parser-Reached found

abbrev two_columns : List DeviceColumn
two_columns =
    record { metadata = first_column; offset = 0 }
    ∷ record { metadata = second_column; offset = 1 }
    ∷ []

abbrev sensor : DeviceMetadata
sensor = record {
  serial_number = 65 ∷ [];
  firmware_hash = [];
  n_streams = 1;
  session_id = 7;
  name = [];
}

abbrev stream_of_two : StreamMetadata
stream_of_two = record {
  stream_id = 1;
  name = [];
  n_columns = 2;
  n_segments = 1;
  sample_size = 3;
  buf_samples = 1;
}

abbrev segment_zero : SegmentMetadata
segment_zero = record {
  stream_id = 1;
  segment_id = 0;
  flags = 3;
  time_ref_epoch = zero_epoch;
  time_ref_serial = [];
  time_ref_session_id = 7;
  start_time = 0;
  sampling_rate = 100;
  decimation = 1;
  filter_cutoff = 0;
  filter_type = unfiltered;
}

abbrev known_stream : DeviceStream
known_stream = record {
  stream = some stream_of_two;
  segment = some segment_zero;
  columns = two_columns;
  id = 1;
  last_seg = 0;
  last_sample_number = 0;
  segment_changed = true;
  meta_changed = true;
}

abbrev two_samples : StreamDataPayload
two_samples = record {
  stream_id = 1;
  first_sample_n = 5;
  segment_id = 0;
  samples = 1 ∷ 2 ∷ 0 ∷ 3 ∷ 4 ∷ 0 ∷ [];
}

two_columns-Laid : Laid 1 0 0 two_columns
unfolding size data_type_into
two_columns-Laid = (refl, refl, refl, (refl, refl, refl, tt))

two_columns_fit : end_from 0 two_columns ≡ 3
unfolding end_from size data_type_into
two_columns_fit = refl

process_samples-IsRun_example :
    (s' : DeviceStream) × (samples : List Sample) × (process_samples known_stream two_samples sensor
      ≡ ok (s', samples))
    × IsRun stream_of_two segment_zero sensor two_columns 5 true true
        ((1 ∷ 2 ∷ 0 ∷ []) ∷ (3 ∷ 4 ∷ 0 ∷ []) ∷ [])
        samples
process_samples-IsRun_example =
    process_samples-IsRun known_stream stream_of_two segment_zero sensor two_samples 1
      ((1 ∷ 2 ∷ 0 ∷ []) ∷ (3 ∷ 4 ∷ 0 ∷ []) ∷ []) refl refl refl refl two_columns-Laid
      (omega (arith, two_columns_fit)) (omega arith) refl (refl, (refl, tt)) (omega arith)

-- Samples of no bytes never get to the end of the data.
endless :
    process_samples
      (record known_stream {
        stream = some (record stream_of_two { sample_size = 0; n_columns = 0 });
        columns = [];
      })
      two_samples
      sensor
    ≡ err out_of_fuel
unfolding process_samples Stream.process_known Stream.read_segment Stream.read_samples
    Stream.samples_loop Stream.parse_sample Stream.parse_columns
endless = refl

-- A stream that is left from before, of which something is missing, makes `get_metadata` panic though
-- there is nothing to ask for.
abbrev left_over : DeviceDataParser
left_over = record {
  device = some (record sensor { n_streams = 0 });
  streams = (1, one_column) ∷ [];
  ignore_session = false;
}

left_over_panics : Parser.get_metadata left_over ≡ err panicked
unfolding Parser.get_metadata Parser.requests Parser.metareqs Parser.streams_requests
    metareqs_to_rpcs Requests.rpcs_loop Parser.streams_metadata Stream.get_metadata Stream.requests
    Stream.constant_requests Stream.is_stale
left_over_panics = refl

abbrev open_port : Port
open_port = record { depth = 0; tx_open = true; tx_room = 32; sent = []; arrivals = [] }

abbrev asking : Device
asking = record (Device.new open_port) {
  dev_port = record open_port { sent = metadata_rpc [] ∷ [] };
  n_reqs = 1;
}

asking_first : internal_rpcs (Device.new open_port) ≡ ok asking
unfolding internal_rpcs Device.new Device.send_all Parser.new Parser.requests Parser.metareqs
    metareqs_to_rpcs Requests.rpcs_loop Requests.make_metareq Requests.next_batch
    Requests.request_bytes Requests.lone_device Requests.is_device Port.send root
asking_first = refl

Ran-IsBalanced_example : asking.n_reqs + 0 ≡ requests_in asking.dev_port.sent
Ran-IsBalanced_example =
    Ran-IsBalanced {d = asking} {k = 0} (asked (created open_port refl) asking_first)
