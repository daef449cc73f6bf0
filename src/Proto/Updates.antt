-- ===== src/Proto/Updates.antt =====
-- `make_update` of each kind of metadata: twinleaf/src/tio/proto/meta.rs.
use twinleaf_rust.Shared.{[]}
use twinleaf_rust.Proto.Meta.Column.{ColumnMetadata}
use twinleaf_rust.Proto.Meta.Device.{DeviceMetadata}
use twinleaf_rust.Proto.Meta.Payload.{
  MetadataContent, device, stream, segment, column, tl_metadata_update,
}
use twinleaf_rust.Proto.Meta.Segment.{SegmentMetadata}
use twinleaf_rust.Proto.Meta.Stream.{StreamMetadata}
use twinleaf_rust.Proto.Packet.{Packet}
use twinleaf_rust.Proto.Payload.{metadata}
use twinleaf_rust.Proto.Route.{root}

abbrev pub update_packet : MetadataContent → Packet
update_packet content = record {
  payload = metadata (record {
    content = content;
    flags = tl_metadata_update;
    unknown_fixed = [];
    unknown_varlen = [];
  });
  routing = root;
  ttl = 0;
}

abbrev pub make_device_update : DeviceMetadata → Packet
make_device_update m = update_packet (device m)

abbrev pub make_stream_update : StreamMetadata → Packet
make_stream_update m = update_packet (stream m)

abbrev pub make_segment_update : SegmentMetadata → Packet
make_segment_update m = update_packet (segment m)

abbrev pub make_column_update : ColumnMetadata → Packet
make_column_update m = update_packet (column m)
