-- ===== src/Util.antt =====
-- `PacketBuilder` of twinleaf/src/tio/util.rs: the packets that the proxy and its clients make.
pub mod Values
use twinleaf_rust.Shared.{ℕ, [], Bytes}
use twinleaf_rust.Text.{Text}
use twinleaf_rust.Proto.Heartbeat.{any}
use twinleaf_rust.Proto.Packet.{Packet}
use twinleaf_rust.Proto.Payload.{rpc_request, rpc_error, heartbeat}
use twinleaf_rust.Proto.Route.{DeviceRoute, root}
use twinleaf_rust.Proto.Rpc.ErrorCode.{RpcErrorCode}
use twinleaf_rust.Proto.Rpc.Request.{by_name}

abbrev pub make_rpc_request : Text → Bytes → ℕ → DeviceRoute → Packet
make_rpc_request name arg id routing = record {
  payload = rpc_request (record { id = id; method = by_name name; arg = arg });
  routing = routing;
  ttl = 0;
}

abbrev pub make_rpc_error : ℕ → RpcErrorCode → DeviceRoute → Packet
make_rpc_error id error routing = record {
  payload = rpc_error (record { id = id; error = error; extra = [] });
  routing = routing;
  ttl = 0;
}

abbrev pub make_heartbeat : Bytes → Packet
make_heartbeat payload = record { payload = heartbeat (any payload); routing = root; ttl = 0 }

abbrev pub make_empty_heartbeat : Packet
make_empty_heartbeat = make_heartbeat []
