-- ===== src/Proxy/Client.antt =====
-- `ProxyClient` of twinleaf/src/tio/proxy_core.rs: which packets a client gets, and under which
-- route. Its channel is a parameter.
pub mod Scope
use twinleaf_rust.Shared.{
  ℕ, Bool, true, false, not, length, leb, if◌then◌else◌, Result, ok, err, Option, some, none,
}
use twinleaf_rust.Proto.Packet.{Packet}
use twinleaf_rust.Proto.Payload.{
  Payload, rpc_request, rpc_reply, rpc_error, legacy_stream_data, stream_data,
}
use twinleaf_rust.Proto.Route.{DeviceRoute, relative_route, absolute_route}

pub record ProxyClient : Type 0 where
  pub rpc_timeout : ℕ
  pub scope : DeviceRoute
  pub depth : ℕ
  pub forward_data : Bool
  pub forward_nonrpc : Bool

unfoldable pub wants : ProxyClient → Payload → Bool
wants c (rpc_request p) = true
wants c (rpc_reply p) = true
wants c (rpc_error p) = true
wants c (legacy_stream_data p) = c.forward_data
wants c (stream_data p) = c.forward_data
wants c p = c.forward_nonrpc

-- The route under which the packet is passed on, if it is.
unfoldable pub scoped_route : ProxyClient → Result DeviceRoute (Unit {0}) → Option DeviceRoute
scoped_route c (ok r) = if leb (length r.route) c.depth then some r else none
scoped_route c (err e) = none

unfoldable pub send_scoped {ℓ} :
    {E : Type ℓ}
    → ProxyClient
    → (Packet → Result (Unit {0}) E)
    → Packet
    → Option DeviceRoute
    → Result (Unit {0}) E
unfolding wants
send_scoped c tx pkt none = ok tt
send_scoped c tx pkt (some r) =
    if not (wants c pkt.payload)
    then ok tt
    else tx (record { payload = pkt.payload; routing = r; ttl = pkt.ttl })

unfoldable pub send {ℓ} :
    {E : Type ℓ} → ProxyClient → (Packet → Result (Unit {0}) E) → Packet → Result (Unit {0}) E
unfolding scoped_route send_scoped
send c tx pkt = send_scoped c tx pkt (scoped_route c (relative_route c.scope pkt.routing))

unfoldable pub recv {ℓ} : {E : Type ℓ} → ProxyClient → Result Packet E → Result Packet E
recv c (ok pkt) = ok (record pkt { routing = absolute_route c.scope pkt.routing })
recv c (err e) = err e
