-- ===== src/Proxy/Core/Tests.antt =====
-- Runs of the proxy's main loop.
use twinleaf_rust.Shared.{
  ℕ, ◌≡◌, refl, true, false, [], ◌∷◌, List, arith, Result, ok, err, some, none, lookup, insert,
  remove,
}
use twinleaf_rust.Proto.Packet.{Packet}
use twinleaf_rust.Proto.Payload.{heartbeat, rpc_reply, rpc_request}
use twinleaf_rust.Proto.Heartbeat.{session}
use twinleaf_rust.Proto.Route.{relative_route, root}
use twinleaf_rust.Proto.Rpc.Request.{RpcRequestPayload, by_id}
use twinleaf_rust.Proxy.Client
use twinleaf_rust.Proxy.Client.{ProxyClient}
use twinleaf_rust.Proxy.Core.{
  ProxyCore, Outside, new, send_event, drop_all, offered, put_into, client_send, cancel_rpcs,
  answer_all, drop_clients,
}
use twinleaf_rust.Proxy.Core.Clients.Run.{run-IsNumbered}
use twinleaf_rust.Proxy.Core.{
  drop_client, setup_device, try_setup_device, first_state, answer_cancelled,
}
use twinleaf_rust.Proxy.Core.Rounds.{
  run, connect_first, reconnect, on_client, received_from, forward_all, remap_event, forwarded,
  send_back, new_clients_ready, device_ready,
}
use twinleaf_rust.Proxy.Core.Handlers.{
  on_new_clients, on_device, try_recv, has_static_rate, on_found, wait_for,
}
use twinleaf_rust.Proxy.Rates.Events.{autonegotiation_events}
use twinleaf_rust.Proxy.Core.{send_events}
use twinleaf_rust.Proxy.Rates.{safe_to_forward}
use twinleaf_rust.Proto.Route.{absolute_route}
use twinleaf_rust.Shared.{◌<◌, insert, member, set_insert}
use twinleaf_rust.Proxy.Core.Answering.{reply, answer_packet, request-on_packet}
use twinleaf_rust.Proxy.Core.Broadcast.{on_packet-taken_by_all}
use twinleaf_rust.Proxy.Core.Handlers.{
  wire_id_of, with_id, after_send, answer_client, answered, broadcast_loop, broadcast, on_packet,
}
use twinleaf_rust.Proxy.Core.Rounds.{
  Ready, timed_out, client_ready, main_loop, round, on_ready, before_select, process_rpc_timeouts,
  with_device, negotiate, reads_clients,
}
use twinleaf_rust.Proxy.Core.Stuck.{main_loop_waits}
use twinleaf_rust.Proxy.Event
use twinleaf_rust.Proxy.Rates.{
  ProxyDevice, waiting_new_rate, autonegotiation, next_state, needs_autonegotiation,
  safe_to_forward,
}
use twinleaf_rust.Proxy.Rpcs
use twinleaf_rust.Proxy.Rpcs.{Rpcs, Forwarded}
use twinleaf_rust.Proxy.Rpcs.Dispatch.{
  dispatch_rpc_errors, cancel_due, cancel_ids, is_later, remove_all,
}
use twinleaf_rust.Proxy.Rpcs.Tracking.{new-IsConsistent}

abbrev outside : Outside
outside = record {
  status = λ event. true;
  tx = λ id packet. true;
  port = λ packet. true;
  connect = none;
  reset_accepted = true;
  target_accepted = true;
  too_far = λ a b. false;
  reconnect_timeout = none;
}

abbrev client_of : ℕ → ProxyClient
client_of place = record {
  rpc_timeout = 5000;
  scope = record { route = place ∷ [] };
  depth = 1;
  forward_data = false;
  forward_nonrpc = true;
}

-- Two clients, for the subtrees at 3 and 4.
abbrev two_clients : ProxyCore
two_clients = record (new true) { clients = (1, client_of 3) ∷ (2, client_of 4) ∷ [] }

abbrev done_or {ℓ κ} : {A : Type ℓ} {E : Type κ} → A → Result A E → A
done_or a (ok x) = x
done_or a (err e) = a

abbrev beat : Packet
beat = record { payload = heartbeat (session 5); routing = record { route = 4 ∷ 6 ∷ [] }; ttl = 0 }

abbrev after_beat : ProxyCore
after_beat = done_or two_clients (on_packet outside two_clients beat)

on_packet-taken_by_all_example :
    after_beat.delivered ≡ (2, record beat { routing = record { route = 6 ∷ [] } }) ∷ []
unfolding new on_packet wire_id_of broadcast broadcast_loop client_send offered put_into drop_all
    Client.send Client.scoped_route Client.send_scoped Client.wants relative_route
on_packet-taken_by_all_example =
    on_packet-taken_by_all outside two_clients after_beat beat refl refl

abbrev request : RpcRequestPayload
request = record { id = 7; method = by_id 2; arg = [] }

abbrev request_packet : Packet
request_packet = record {
  payload = rpc_request request;
  routing = record { route = 3 ∷ 5 ∷ [] };
  ttl = 0;
}

abbrev sent : Forwarded
sent = record {
  rpcs = record {
    next_rpc_id = 1;
    rpc_map =
        (0, record { id = 7; client = 1; route = record { route = 3 ∷ 5 ∷ [] }; timeout = 5100 })
        ∷ [];
    rpc_timeouts = (5100, 0 ∷ []) ∷ [];
  };
  offered = some (record request_packet { payload = rpc_request (record request { id = 0 }) });
  answer = ok tt;
}

abbrev after_reply : ProxyCore
after_reply = done_or two_clients (
    on_packet outside (record two_clients { rpcs = sent.rpcs })
      (answer_packet 0 (reply (1 ∷ [])) request_packet.routing 0))

request-on_packet_example :
    after_reply.delivered
    ≡ (
      1,
      record {
        payload = rpc_reply (record { id = 7; reply = 1 ∷ [] });
        routing = record { route = 5 ∷ [] };
        ttl = 0;
      },
    )
      ∷ []
unfolding new on_packet wire_id_of with_id answered answer_client send_event Event.is_new_client
    after_send client_send offered put_into Client.send Client.scoped_route Client.send_scoped
    Client.wants relative_route Rpcs.new Rpcs.rpc_restore Rpcs.restored Rpcs.drop_timeout
    Rpcs.forward_request Rpcs.forward_timed Rpcs.forward_mapped Rpcs.timeout_of Rpcs.add_timeout
    lookup insert remove
request-on_packet_example =
    request-on_packet outside two_clients after_reply request_packet (reply (1 ∷ [])) 0 request 1
      100 (client_of 3) sent new-IsConsistent (omega arith) refl refl refl refl

-- A device that waits for the answer to its rate, and the proxy's own RPC that is overdue.
abbrev waiting_device : ProxyDevice
waiting_device = record {
  rate_info = some (record { default_bps = 115200; target_bps = 400000 });
  rate_change_state = waiting_new_rate;
  last_rx = 0;
  last_session = some 5;
  restarted = false;
}

abbrev waiting_proxy : ProxyCore
waiting_proxy = record two_clients {
  device = some waiting_device;
  rpcs = record {
    next_rpc_id = 1;
    rpc_map = (0, record { id = 258; client = 0; route = root; timeout = 1000 }) ∷ [];
    rpc_timeouts = (1000, 0 ∷ []) ∷ [];
  };
}

abbrev quiet_rounds : List (Outside × ℕ × Ready)
quiet_rounds =
    (outside, 2000, timed_out) ∷ (outside, 2200, client_ready 1 (request_packet ∷ []) false) ∷ []

abbrev after_rounds : ProxyCore
after_rounds = done_or waiting_proxy (main_loop waiting_proxy quiet_rounds)

main_loop_waits_example :
    (after_rounds.device ≡ some waiting_device) × (reads_clients after_rounds.device ≡ false)
main_loop_waits_example =
    main_loop_waits waiting_proxy after_rounds quiet_rounds waiting_device refl refl refl refl (
      unfold main_loop round on_ready before_select process_rpc_timeouts cancel_rpcs
        dispatch_rpc_errors cancel_due cancel_ids is_later remove_all answer_all send_event
        Event.is_new_client drop_all with_device negotiate needs_autonegotiation autonegotiation
        next_state autonegotiation_events send_events drop_clients reads_clients safe_to_forward
        lookup remove new in
      refl)

-- Its RPC is gone by then.
overdue_dropped : after_rounds.rpcs.rpc_map ≡ []
unfolding main_loop round on_ready before_select process_rpc_timeouts cancel_rpcs
    dispatch_rpc_errors cancel_due cancel_ids is_later remove_all answer_all send_event
    Event.is_new_client drop_all with_device negotiate needs_autonegotiation autonegotiation
    next_state autonegotiation_events send_events drop_clients reads_clients safe_to_forward lookup
    remove new
overdue_dropped = refl

-- A client comes, and another, the device goes, an attempt to connect fails, and the next succeeds.
abbrev open_port : Outside
open_port = record outside { connect = some none }

abbrev busy_rounds : List (Outside × ℕ × Ready)
busy_rounds =
    (open_port, 10, new_clients_ready (client_of 3 ∷ client_of 4 ∷ []) false)
    ∷ (open_port, 20, client_ready 1 (request_packet ∷ []) true)
    ∷ (record open_port { reconnect_timeout = some 15 }, 30, device_ready (ok beat ∷ []) true)
    ∷ (record open_port { connect = none }, 40, timed_out)
    ∷ (open_port, 44, timed_out)
    ∷ []

abbrev after_run : ProxyCore
after_run = done_or two_clients (run open_port (new true) 0 busy_rounds)

run-IsNumbered_example :
    ((id : ℕ) (client : ProxyClient)
      → lookup id after_run.clients ≡ some client
      → (0 < id) × (id < after_run.next_client_id))
    × (lookup after_run.next_client_id after_run.clients ≡ none)
run-IsNumbered_example = run-IsNumbered open_port after_run true 0 busy_rounds (
    unfold run connect_first try_setup_device setup_device first_state main_loop round on_ready
      before_select process_rpc_timeouts reconnect cancel_rpcs dispatch_rpc_errors cancel_due
      cancel_ids is_later remove_all answer_all answer_cancelled send_event Event.is_new_client
      drop_client drop_all with_device negotiate needs_autonegotiation drop_clients reads_clients
      safe_to_forward lookup remove insert member set_insert new on_new_clients on_client
      received_from forward_all remap_event forwarded send_back on_device try_recv has_static_rate
      on_found on_packet wire_id_of broadcast broadcast_loop client_send offered put_into
      absolute_route relative_route wait_for Client.send Client.scoped_route Client.send_scoped
      Client.wants Rpcs.new Rpcs.forward_to_device Rpcs.forward_request Rpcs.forward_timed
      Rpcs.forward_mapped Rpcs.timeout_of Rpcs.add_timeout in
    refl)

-- The request that the first client left behind was cancelled with the device, and the second is there.
one_left :
    (after_run.rpcs.rpc_map ≡ [])
    × (after_run.next_client_id ≡ 3)
    × (lookup 1 after_run.clients ≡ none)
unfolding run connect_first try_setup_device setup_device first_state main_loop round on_ready
    before_select process_rpc_timeouts reconnect cancel_rpcs dispatch_rpc_errors cancel_due
    cancel_ids is_later remove_all answer_all answer_cancelled send_event Event.is_new_client
    drop_client drop_all with_device negotiate needs_autonegotiation drop_clients reads_clients
    safe_to_forward lookup remove insert member set_insert new on_new_clients on_client
    received_from forward_all remap_event forwarded send_back on_device try_recv has_static_rate
    on_found on_packet wire_id_of broadcast broadcast_loop client_send offered put_into
    absolute_route relative_route wait_for Client.send Client.scoped_route Client.send_scoped
    Client.wants Rpcs.new Rpcs.forward_to_device Rpcs.forward_request Rpcs.forward_timed
    Rpcs.forward_mapped Rpcs.timeout_of Rpcs.add_timeout
one_left = (refl, refl, refl)
