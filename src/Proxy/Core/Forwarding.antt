-- ===== src/Proxy/Core/Forwarding.antt =====
-- The packets of a client on their way to the device, in the main loop of
-- twinleaf/src/tio/proxy_core.rs.
use twinleaf_rust.Shared.{◌≡◌, List, [], ◌∷◌, ◌++◌, ok, err, Option, some}
use twinleaf_rust.Proto.Packet.{Packet}
use twinleaf_rust.Proto.Payload.{Payload, rpc_request}
use twinleaf_rust.Proto.Rpc.ErrorCode.{RpcErrorCode}
use twinleaf_rust.Proto.Rpc.Request.{RpcRequestPayload}
use twinleaf_rust.Proxy.Event.{Event}
use twinleaf_rust.Proxy.Rpcs.{Rpcs, Forwarded}
use twinleaf_rust.Proxy.Rpcs.Tracking.{IsConsistent}
use twinleaf_rust.Util.{make_rpc_error}

-- The packets of a client and the errors for them, in order, from RPCs to RPCs, by a function that
-- forwards one packet: there is an error for each request that is refused, under its id and route,
-- and for no other packet.
pub data Refusals (forward : Rpcs → Packet → Option Forwarded)
    : Rpcs → List Packet → List Packet → Rpcs → Type 0 where
  done : (s : Rpcs) → Refusals forward s [] [] s
  passed :
      (s s' : Rpcs) (f : Forwarded) (packet : Packet) (packets errors : List Packet)
      → forward s packet ≡ some f
      → f.answer ≡ ok tt
      → Refusals forward f.rpcs packets errors s'
      → Refusals forward s (packet ∷ packets) errors s'
  refused :
      (s s' : Rpcs) (f : Forwarded) (packet : Packet) (packets errors : List Packet)
      (req : RpcRequestPayload) (code : RpcErrorCode)
      → forward s packet ≡ some f
      → packet.payload ≡ rpc_request req
      → f.answer ≡ err (make_rpc_error req.id code packet.routing)
      → Refusals forward f.rpcs packets errors s'
      → Refusals forward s
          (packet ∷ packets)
          (make_rpc_error req.id code packet.routing ∷ errors)
          s'

-- One packet: the RPCs stay consistent, and its error, if there is one, is that of the request.
abbrev Passes : (Rpcs → Packet → Option Forwarded) → Rpcs → Packet → Type 0
Passes forward s packet =
    (f : Forwarded) × (forward s packet ≡ some f)
    × IsConsistent f.rpcs
    × ((s' : Rpcs) (packets errors : List Packet)
        → Refusals forward f.rpcs packets errors s'
        → Refusals forward s (packet ∷ packets)
            (elim f.answer [ ok sent ↦ [] | err e ↦ e ∷ [] ] ++ errors) s')
