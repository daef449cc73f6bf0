-- ===== src/Data/Requests.antt =====
-- The metadata requests of twinleaf/src/data/mod.rs, and their packing into RPCs.
pub mod Packing
use twinleaf_rust.Shared.{
  ℕ, zero, suc, Bool, true, false, List, [], ◌∷◌, ltb, ◌==◌, if◌then◌else◌, length, take, drop,
  Bytes, Result, ok, err, ◌>>=◌, ◌>>◌, refuse,
}
use twinleaf_rust.Text.{Text}
use twinleaf_rust.Data.Stop.{Stop, panicked, out_of_fuel}
use twinleaf_rust.Proto.Meta.Payload.{
  MetadataType, device_type, stream_type, segment_type, column_type, unknown_type,
  metadata_type_into,
}
use twinleaf_rust.Proto.Packet.{Packet}
use twinleaf_rust.Proto.Route.{root}
use twinleaf_rust.Util.{make_rpc_request}

abbrev pub tl_streamrpc_max_meta : ℕ
tl_streamrpc_max_meta = 16

pub record StreamRpcMetaReq : Type 0 where
  pub mtype : MetadataType
  pub stream_id : ℕ
  pub index : ℕ

abbrev pub device : StreamRpcMetaReq
device = record { mtype = device_type; stream_id = 0; index = 0 }

abbrev pub stream : ℕ → StreamRpcMetaReq
stream id = record { mtype = stream_type; stream_id = id; index = 0 }

abbrev pub segment : ℕ → ℕ → StreamRpcMetaReq
segment index stream_id = record { mtype = segment_type; stream_id = stream_id; index = index }

abbrev pub column : ℕ → ℕ → StreamRpcMetaReq
column index stream_id = record { mtype = column_type; stream_id = stream_id; index = index }

-- Three bytes a request.
unfoldable pub request_bytes : List StreamRpcMetaReq → Bytes
request_bytes [] = []
request_bytes (req ∷ reqs) =
    metadata_type_into req.mtype ∷ req.stream_id ∷ req.index ∷ request_bytes reqs

unfoldable pub make_metareq : List StreamRpcMetaReq → Result Bytes Stop
make_metareq reqs = do
  refuse (ltb tl_streamrpc_max_meta (length reqs)) panicked
  ok (request_bytes reqs)

-- "dev.metadata"
abbrev pub dev_metadata : Text
dev_metadata = 100 ∷ 101 ∷ 118 ∷ 46 ∷ 109 ∷ 101 ∷ 116 ∷ 97 ∷ 100 ∷ 97 ∷ 116 ∷ 97 ∷ []

-- The id that tells replies to these requests from others.
abbrev pub metadata_rpc_id : ℕ
metadata_rpc_id = 7855

unfoldable pub is_device : StreamRpcMetaReq → Bool
is_device req = elim req.mtype [ device_type ↦ true | _ ↦ false ]

unfoldable pub lone_device : List StreamRpcMetaReq → Bool
unfolding is_device
lone_device [] = false
lone_device (req ∷ []) = is_device req
lone_device (req ∷ next ∷ reqs) = false

-- The requests still to send, of which the count behind them goes into the next RPC. A device alone
-- is asked for without arguments.
unfoldable pub next_batch : List StreamRpcMetaReq → List StreamRpcMetaReq × ℕ
unfolding lone_device
next_batch reqs =
    if ltb tl_streamrpc_max_meta (length reqs)
    then (reqs, tl_streamrpc_max_meta)
    else if lone_device reqs
    then (drop 1 reqs, 0)
    else (reqs, length reqs)

unfoldable pub rpcs_loop : ℕ → List StreamRpcMetaReq → Result (List Packet) Stop
unfolding make_metareq next_batch
rpcs_loop fuel [] = ok []
rpcs_loop zero (req ∷ reqs) = err out_of_fuel
rpcs_loop (suc fuel) (req ∷ reqs) = do
  let (left, n_reqs) = next_batch (req ∷ reqs)
  arg ← make_metareq (take n_reqs left)
  rest ← rpcs_loop fuel (drop n_reqs left)
  ok (make_rpc_request dev_metadata arg metadata_rpc_id root ∷ rest)

-- A round takes a request at least, so their number is enough fuel.
unfoldable pub metareqs_to_rpcs : List StreamRpcMetaReq → Result (List Packet) Stop
unfolding rpcs_loop
metareqs_to_rpcs metareqs = rpcs_loop (length metareqs) metareqs
