-- ===== src/Data/Metarep.antt =====
-- `parse_metarep` of twinleaf/src/data/mod.rs: the metadata in the reply to a metadata RPC.
pub mod RoundTrip
use twinleaf_rust.Shared.{
  ℕ, zero, suc, List, [], ◌∷◌, ◌++◌, ltb, length, take, drop, Bytes, Result, ok, err, ◌>>=◌, ◌>>◌,
  refuse,
}
use twinleaf_rust.Data.Stop.{Stop, panicked, out_of_fuel, unwrap}
use twinleaf_rust.Proto.Meta.Device
use twinleaf_rust.Proto.Meta.Stream
use twinleaf_rust.Proto.Meta.Segment
use twinleaf_rust.Proto.Meta.Column
use twinleaf_rust.Proto.Meta.Payload.{
  MetadataType, device_type, stream_type, segment_type, column_type, unknown_type,
  metadata_type_from, MetadataContent, device, stream, segment, column,
}

-- What an entry adds to the list: another kind of metadata is skipped.
unfoldable pub read_metadata : MetadataType → Bytes → Result (List MetadataContent) Stop
read_metadata device_type metadata = do
  (dm, uf, uv) ← unwrap (Device.deserialize metadata [])
  ok (device dm ∷ [])
read_metadata stream_type metadata = do
  (sm, uf, uv) ← unwrap (Stream.deserialize metadata [])
  ok (stream sm ∷ [])
read_metadata segment_type metadata = do
  (sm, uf, uv) ← unwrap (Segment.deserialize metadata [])
  ok (segment sm ∷ [])
read_metadata column_type metadata = do
  (cm, uf, uv) ← unwrap (Column.deserialize metadata [])
  ok (column cm ∷ [])
read_metadata (unknown_type b) metadata = ok []

-- The argument is the reply from the offset on.
unfoldable pub metarep_loop : ℕ → Bytes → Result (List MetadataContent) Stop
unfolding read_metadata
metarep_loop fuel [] = ok []
metarep_loop fuel (b ∷ []) = ok []
metarep_loop zero (mtype ∷ varlen ∷ rep) = err out_of_fuel
metarep_loop (suc fuel) (mtype ∷ varlen ∷ rep) = do
  refuse (ltb (length rep) varlen) panicked
  found ← read_metadata (metadata_type_from mtype) (take varlen rep)
  rest ← metarep_loop fuel (drop varlen rep)
  ok (found ++ rest)

-- A round takes two bytes at least, so the length is enough fuel.
unfoldable pub parse_metarep : Bytes → Result (List MetadataContent) Stop
unfolding metarep_loop
parse_metarep rep = metarep_loop (length rep) rep
