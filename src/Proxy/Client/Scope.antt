-- ===== src/Proxy/Client/Scope.antt =====
-- What passes between a client and the device tree.
use twinleaf_rust.Shared.{
  ◌≤◌, ◌≡◌, ◌≢◌, Result-cases, inl, inr, refl, ◌∙◌, true, arith, length, leb, le→leb, if◌then◌else◌,
  Result, ok, ◌&&◌,
}
use twinleaf_rust.Proto.Packet.{Packet}
use twinleaf_rust.Proto.Route.{DeviceRoute, relative_route, absolute_route}
use twinleaf_rust.Proto.Route.Scope.{relative_route-absolute_route, relative_route_iff}
use twinleaf_rust.Proxy.Client.{ProxyClient, wants, scoped_route, send_scoped, send, recv}

-- A packet of a device in the client's scope reaches the client's channel, under the route that the
-- client itself would use for that device, if it lies no deeper than the client sees and the client
-- wants its kind. Otherwise it is passed over, and that is no failure.
pub send-absolute_route {ℓ} :
    {E : Type ℓ} (c : ProxyClient) (tx : Packet → Result (Unit {0}) E) (pkt : Packet)
    → send c tx (record pkt { routing = absolute_route c.scope pkt.routing })
      ≡ (if leb (length pkt.routing.route) c.depth && wants c pkt.payload then tx pkt else ok tt)
unfolding send scoped_route send_scoped
send-absolute_route c tx pkt = rw (relative_route-absolute_route c.scope pkt.routing) (ground arith)

-- A packet of a device outside the client's scope does not reach the client's channel.
pub send_outside {ℓ} :
    {E : Type ℓ} (c : ProxyClient) (tx : Packet → Result (Unit {0}) E) (pkt : Packet)
    → ((q : DeviceRoute) → absolute_route c.scope q ≢ pkt.routing)
    → send c tx pkt ≡ ok tt
unfolding send scoped_route send_scoped
send_outside c tx pkt outside = elim (Result-cases (relative_route c.scope pkt.routing)) [
  | inl (q, e) ↦ absurd (outside q ((relative_route_iff c.scope pkt.routing q).0 e))
  | inr (x, e) ↦ rw e refl
]

-- What a client sends and the device sends back comes back under the client's own route, whatever
-- the client's scope, if the client sees that deep and wants the kind of packet.
pub send-recv {ℓ} :
    {E : Type ℓ} (c : ProxyClient) (tx : Packet → Result (Unit {0}) E) (pkt up : Packet)
    → recv {E = E} c (ok pkt) ≡ ok up
    → length pkt.routing.route ≤ c.depth
    → wants c pkt.payload ≡ true
    → send c tx up ≡ tx pkt
unfolding recv
send-recv c tx pkt up e shallow wanted =
    let same : record pkt { routing = absolute_route c.scope pkt.routing } ≡ up = ground arith in
    rw (← same) (
      send-absolute_route c tx pkt
      ∙ rw (le→leb (length pkt.routing.route) c.depth shallow, wanted) refl)
