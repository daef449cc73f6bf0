-- ===== src/Proxy/Core/Cancelling.antt =====
-- What the clients get of RPCs that are cancelled, by `ProxyCore::dispatch_rpc_errors` of
-- twinleaf/src/tio/proxy_core.rs.
use twinleaf_rust.Shared.{ℕ, ◌≡◌, true, List, [], ◌∷◌, ◌++◌, Option, some, none, lookup}
use twinleaf_rust.Proto.Packet.{Packet}
use twinleaf_rust.Proto.Rpc.ErrorCode.{RpcErrorCode}
use twinleaf_rust.Proxy.Client.{ProxyClient}
use twinleaf_rust.Proxy.Core.{ProxyCore, Outside, offered, cancelled_event}
use twinleaf_rust.Proxy.Event.{Event}
use twinleaf_rust.Proxy.Rpcs.{RpcMapEntry, Rpcs}
use twinleaf_rust.Proxy.Rpcs.Dispatch.{RpcMap, error_packet}

abbrev pub TakesPackets : Outside → Type 0
TakesPackets o = (id : ℕ) (packet : Packet) → o.tx id packet ≡ true

-- What goes into a client's channel for a cancelled RPC: nothing where the client is gone.
unfoldable pub given_to : ℕ → Option Packet → List (ℕ × Packet)
given_to client_id none = []
given_to client_id (some given) = (client_id, given) ∷ []

unfoldable pub error_given : RpcErrorCode → RpcMapEntry → Option ProxyClient → List (ℕ × Packet)
unfolding given_to
error_given error remap none = []
error_given error remap (some client) =
    given_to remap.client (offered client (error_packet error remap))

unfoldable pub errors_given : List (ℕ × ProxyClient) → RpcErrorCode → RpcMap → List (ℕ × Packet)
unfolding error_given
errors_given clients error [] = []
errors_given clients error ((rpc_id, remap) ∷ cancelled) =
    error_given error remap (lookup remap.client clients) ++ errors_given clients error cancelled

unfoldable pub cancelled_events : RpcErrorCode → RpcMap → List Event
unfolding cancelled_event
cancelled_events error [] = []
cancelled_events error ((rpc_id, remap) ∷ cancelled) =
    cancelled_event error rpc_id ∷ cancelled_events error cancelled

abbrev grown : ProxyCore → List Event → List (ℕ × Packet) → ProxyCore
grown p events packets = record p {
  events = p.events ++ events;
  delivered = p.delivered ++ packets;
}
