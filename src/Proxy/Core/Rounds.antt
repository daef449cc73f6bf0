-- ===== src/Proxy/Core/Rounds.antt =====
-- The rounds of the main loop of `ProxyCore::run` in twinleaf/src/tio/proxy_core.rs: what is done before
-- it waits, and with the packets of a client.
use twinleaf_rust.Shared.{
  ℕ, Bool, true, false, List, [], ◌∷◌, ◌++◌, ltb, if◌then◌else◌, Result, ok, err, ◌>>=◌, Option,
  some, none, lookup,
}
use twinleaf_rust.Port.Errors.{RecvError}
use twinleaf_rust.Proto.Packet.{Packet}
use twinleaf_rust.Proto.Payload.{Payload, rpc_request}
use twinleaf_rust.Proto.Route.{absolute_route}
use twinleaf_rust.Proto.Rpc.ErrorCode.{timeout}
use twinleaf_rust.Proxy.Client.{ProxyClient}
use twinleaf_rust.Proxy.Core.{
  ProxyCore, Outside, Halt, panicked, finished, send_event, send_events, drop_client, client_send,
  cancel_rpcs, cancel_active_rpcs, try_setup_device, drop_clients,
}
use twinleaf_rust.Proxy.Core.Handlers.{after_send, on_device, on_new_clients}
use twinleaf_rust.Proxy.Event.{
  sensor_connected, sensor_reconnected, failed_to_connect, failed_to_reconnect, rpc_remap,
}
use twinleaf_rust.Proxy.Rates.Events.{autonegotiation_events}
use twinleaf_rust.Proxy.Rates.{ProxyDevice, autonegotiation, needs_autonegotiation, safe_to_forward}
use twinleaf_rust.Proxy.Rpcs.{Forwarded, forward_to_device, is_some}

-- The RPCs after a packet was forwarded, with the error to send back if there is one.
unfoldable pub forwarded : ProxyCore → Option Forwarded → Result (ProxyCore × List Packet) Halt
forwarded p none = err panicked
forwarded p (some f) =
    ok (record p { rpcs = f.rpcs }, elim f.answer [ ok done ↦ [] | err packet ↦ packet ∷ [] ])

unfoldable pub received_from : ProxyClient → List Packet → List Packet
received_from client [] = []
received_from client (packet ∷ packets) =
    record packet { routing = absolute_route client.scope packet.routing }
    ∷ received_from client packets

-- Whether the channels of the clients are read in the round.
unfoldable pub reads_clients : Option ProxyDevice → Bool
unfolding safe_to_forward
reads_clients none = true
reads_clients (some d) = safe_to_forward d.rate_change_state

-- What is ready, with what its channel holds and whether the other end of that is gone.
pub data Ready : Type 0 where
  timed_out : Ready
  client_ready : ℕ → List Packet → Bool → Ready
  new_clients_ready : List ProxyClient → Bool → Ready
  device_ready : List (Result Packet RecvError) → Bool → Ready

module _ (o : Outside) where
  unfoldable pub remap_event : ProxyCore → ℕ → Payload → Result ProxyCore Halt
  unfolding send_event
  remap_event p client_id (rpc_request req) =
      if is_some (lookup p.rpcs.next_rpc_id p.rpcs.rpc_map)
      then ok p
      else send_event o p (rpc_remap (client_id, req.id) p.rpcs.next_rpc_id)
  remap_event p client_id payload = ok p

  abbrev pub device_port : Option ProxyDevice → Option (Packet → Bool)
  device_port none = none
  device_port (some d) = some o.port

  unfoldable pub forward_all :
      ProxyCore → ℕ → ℕ → List Packet → Result (ProxyCore × List Packet) Halt
  unfolding remap_event forward_to_device forwarded
  forward_all p now client_id [] = ok (p, [])
  forward_all p now client_id (packet ∷ packets) = do
    p ← remap_event p client_id packet.payload
    (p, error) ← forwarded p (
        forward_to_device (λ k. lookup k p.clients) (device_port p.device) now p.rpcs packet
          client_id)
    (p, more) ← forward_all p now client_id packets
    ok (p, error ++ more)

  -- The errors go back until the client does not take one.
  unfoldable pub send_back : ProxyCore → ℕ → ProxyClient → List Packet → Result ProxyCore Halt
  unfolding client_send after_send
  send_back p client_id client [] = ok p
  send_back p client_id client (packet ∷ packets) =
      let (p', failed) = client_send o p client_id client packet in
      elim failed [
        | true ↦ after_send o (p', true) client_id
        | false ↦ send_back p' client_id client packets
      ]

  -- A client's channel until it is empty, or its other end is gone.
  unfoldable pub on_client : ProxyCore → ℕ → ℕ → List Packet → Bool → Result ProxyCore Halt
  unfolding received_from forward_all send_back drop_client
  on_client p now client_id packets gone = elim (lookup client_id p.clients) [
    | none ↦ err panicked
    | some client ↦ (do
      p ← if gone then drop_client o p client_id else ok p
      (p, errors) ← forward_all p now client_id (received_from client packets)
      send_back p client_id client errors)
  ]

  unfoldable pub process_rpc_timeouts : ProxyCore → ℕ → Result ProxyCore Halt
  unfolding cancel_rpcs
  process_rpc_timeouts p now = cancel_rpcs o p timeout (some now)

  -- Without a device its RPCs are cancelled, and the port is opened again, for a time.
  unfoldable pub reconnect : ProxyCore → ℕ → Result ProxyCore Halt
  unfolding cancel_rpcs try_setup_device send_event
  reconnect p now = do
    p ← cancel_active_rpcs o p
    let (p, opened) = try_setup_device o p now
    if opened
        then send_event o p sensor_reconnected
        else if ltb p.device_timeout now
        then (do p ← send_event o p failed_to_reconnect; err finished)
        else ok p

  unfoldable pub negotiate : ProxyCore → ℕ → ProxyDevice → Result ProxyCore Halt
  unfolding autonegotiation needs_autonegotiation send_events autonegotiation_events
  negotiate p now d =
      if needs_autonegotiation d.rate_change_state
      then (do
        p ← send_events o p (autonegotiation_events o.port now d p.rpcs)
        elim (autonegotiation o.port now o.reset_accepted d p.rpcs) [
          | none ↦ err panicked
          | some (d', rpcs) ↦ ok (record p { device = some d'; rpcs = rpcs })
        ])
      else ok (record p { device = some d })

  -- The flag of a restart is cleared before the negotiation.
  unfoldable pub with_device : ProxyCore → ℕ → Option ProxyDevice → Result ProxyCore Halt
  unfolding negotiate cancel_rpcs
  with_device p now none = ok p
  with_device p now (some d) = do
    p ← negotiate p now (record d { restarted = false })
    if d.restarted then cancel_active_rpcs o p else ok p

  -- What a round does before it waits, with whether the clients are read: that is asked before the
  -- negotiation goes on.
  unfoldable pub before_select : ProxyCore → ℕ → Result (ProxyCore × Bool) Halt
  unfolding process_rpc_timeouts reconnect with_device drop_clients reads_clients
  before_select p now = do
    p ← process_rpc_timeouts p now
    p ← elim p.device [ none ↦ reconnect p now | some d ↦ ok p ]
    let safe = reads_clients p.device
    p ← with_device p now p.device
    ok (record p { clients = drop_clients p.clients_to_drop p.clients; clients_to_drop = [] }, safe)

  -- The channels of clients are not waited for unless it is safe to forward.
  unfoldable pub on_ready : ProxyCore → ℕ → Bool → Ready → Result ProxyCore Halt
  unfolding on_client on_new_clients on_device
  on_ready p now safe timed_out = ok p
  on_ready p now safe (client_ready client_id packets gone) =
      if safe then on_client p now client_id packets gone else ok p
  on_ready p now safe (new_clients_ready clients gone) = on_new_clients o p clients gone
  on_ready p now safe (device_ready arrivals gone) = on_device o p now arrivals gone

  unfoldable pub round : ProxyCore → ℕ → Ready → Result ProxyCore Halt
  unfolding before_select on_ready
  round p now ready = do (p, safe) ← before_select p now; on_ready p now safe ready

  -- The first connection.
  unfoldable pub connect_first : ProxyCore → ℕ → Result ProxyCore Halt
  unfolding try_setup_device send_event
  connect_first p now =
      let (p', opened) = try_setup_device o p now in
      if opened
      then (do p ← send_event o p' sensor_connected; ok (record p { device_timeout = now }))
      else (do p ← send_event o p' failed_to_connect; err finished)

-- The main loop, as long as something is ready. What lies outside answers anew in every round.
unfoldable pub main_loop : ProxyCore → List (Outside × ℕ × Ready) → Result ProxyCore Halt
unfolding round
main_loop p [] = ok p
main_loop p ((o, now, ready) ∷ later) = do p ← round o p now ready; main_loop p later

unfoldable pub run : Outside → ProxyCore → ℕ → List (Outside × ℕ × Ready) → Result ProxyCore Halt
unfolding connect_first main_loop
run o p now rounds = do p ← connect_first o p now; main_loop p rounds
