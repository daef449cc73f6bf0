-- ===== src/Proxy/Tests.antt =====
-- Runs of the proxy.
use twinleaf_rust.Shared.{
  inr, member, remove, if◌then◌else◌, ℕ, ◌≡◌, ◌≢◌, refl, true, false, List, [], ◌∷◌, arith, Result,
  ok, err, Option, some, none, lookup, insert,
}
use twinleaf_rust.Proto.Packet.{Packet}
use twinleaf_rust.Proto.Payload.{rpc_reply, rpc_request, heartbeat}
use twinleaf_rust.Proto.Route.{DeviceRoute, absolute_route, relative_route}
use twinleaf_rust.Proto.Rpc.Request.{RpcRequestPayload, by_id}
use twinleaf_rust.Proxy.Client
use twinleaf_rust.Proxy.Client.{ProxyClient, wants}
use twinleaf_rust.Proxy.Client.Scope.{send-recv}
use twinleaf_rust.Proxy.Rpcs
use twinleaf_rust.Proxy.Rpcs.{Rpcs, RpcMapEntry}
use twinleaf_rust.Proxy.Rpcs.Tracking.{
  IsConsistent, new-IsConsistent, tracked, tracked-IsConsistent,
}
use twinleaf_rust.Proxy.Rpcs.Dispatch.{
  RpcMap, dispatch_rpc_errors, cancel_due, cancel_ids, is_later, remove_all,
}
use twinleaf_rust.Proxy.Rpcs.Dispatch.Due.{ids_of, IsFrom}
use twinleaf_rust.Proxy.Rpcs.Dispatch.Exact.{is_due, dispatch_rpc_errors_lem}
use twinleaf_rust.Port.Serial.{RateInfo}
use twinleaf_rust.Proxy.Rates.{set_device_rate, waiting_new_rate, RateChange, ProxyDevice}
use twinleaf_rust.Proxy.Rates.Replies.{Answers}
use twinleaf_rust.Proto.Rpc.Reply.{RpcReplyPayload}
use twinleaf_rust.Proxy.Core.{ProxyCore, Outside, new, offered}
use twinleaf_rust.Proxy.Core.Cancelling.{errors_given, error_given, given_to}
use twinleaf_rust.Proto.Rpc.ErrorCode.{timeout}
use twinleaf_rust.Util.{make_rpc_error}
use twinleaf_rust.Proto.Heartbeat.{session}
use twinleaf_rust.Proxy.Event.{Event}
use twinleaf_rust.Proxy.Core.Handlers.{internal_reply}
use twinleaf_rust.Proxy.Core.Negotiation.{told, internal_reply-Answers}
use twinleaf_rust.Proxy.Rates.Events.{reply_events}
use twinleaf_rust.Proxy.Rpcs.Answers.{Handled, forward_request-Handled}

-- A client of the subtree at 3, which sees one hop below it.
abbrev client : ProxyClient
client = record {
  rpc_timeout = 5000;
  scope = record { route = 3 ∷ [] };
  depth = 1;
  forward_data = false;
  forward_nonrpc = true;
}

abbrev full_channel : Packet → Result (Unit {0}) ℕ
full_channel pkt = err 1

abbrev reply_from : DeviceRoute → Packet
reply_from route = record {
  payload = rpc_reply (record { id = 9; reply = [] });
  routing = route;
  ttl = 0;
}

send-recv_example :
    Client.send client full_channel (reply_from (record { route = 3 ∷ 5 ∷ [] })) ≡ err 1
unfolding wants
send-recv_example =
    send-recv client full_channel (reply_from (record { route = 5 ∷ [] }))
      (reply_from (record { route = 3 ∷ 5 ∷ [] })) (unfold Client.recv absolute_route in refl)
      (omega arith) refl

abbrev request : RpcRequestPayload
request = record { id = 7; method = by_id 2; arg = [] }

abbrev request_packet : Packet
request_packet = record {
  payload = rpc_request request;
  routing = record { route = 3 ∷ [] };
  ttl = 0;
}

abbrev one_client : ℕ → Option ProxyClient
one_client id = some client

forward_request-Handled_example :
    Handled Rpcs.new request_packet request 1
      (Rpcs.forward_request one_client (some (λ pkt. true)) 100 Rpcs.new request_packet request 1)
forward_request-Handled_example =
    forward_request-Handled (some (λ pkt. true)) Rpcs.new new-IsConsistent request_packet request 1
      one_client 100 (λ _ e. cc)

-- The request in flight, as the proxy's first.
abbrev entry : RpcMapEntry
entry = record { id = 7; client = 1; route = record { route = 3 ∷ [] }; timeout = 5100 }

abbrev in_flight : Rpcs
in_flight = tracked Rpcs.new 0 entry

in_flight-IsConsistent : IsConsistent in_flight
in_flight-IsConsistent =
    tracked-IsConsistent Rpcs.new new-IsConsistent 0 entry (unfold Rpcs.new lookup in refl)

entry_only :
    (e : RpcMapEntry) → lookup 0 in_flight.rpc_map ≡ some e → e.route ≢ record { route = [] }
unfolding lookup insert
entry_only e found same = ground arith

dispatch_rpc_errors_lem_example :
    (cancelled : RpcMap) × (s' : Rpcs) × (dispatch_rpc_errors (some 6000) in_flight
      ≡ some (cancelled, s'))
    × IsConsistent s'
    × ((w : ℕ) → member w (ids_of cancelled) ≡ is_due (some 6000) (lookup w in_flight.rpc_map))
    × IsFrom in_flight.rpc_map cancelled
    × ((w : ℕ)
        → lookup w s'.rpc_map ≡ (
            if is_due (some 6000) (lookup w in_flight.rpc_map)
            then none
            else lookup w in_flight.rpc_map))
dispatch_rpc_errors_lem_example =
    dispatch_rpc_errors_lem (some 6000) in_flight in_flight-IsConsistent

-- The request's time is up at 6000.
cancelled_in_time :
    dispatch_rpc_errors (some 6000) in_flight
    ≡ some ((0, entry) ∷ [], record in_flight { rpc_map = []; rpc_timeouts = [] })
unfolding dispatch_rpc_errors cancel_due cancel_ids is_later remove_all lookup remove insert
    Rpcs.new Rpcs.add_timeout
cancelled_in_time = refl

-- A device on a serial port, whose rate is about to be set.
abbrev serial_rates : RateInfo
serial_rates = record { default_bps = 115200; target_bps = 400000 }

abbrev serial_device : ProxyDevice
serial_device = record {
  rate_info = some serial_rates;
  rate_change_state = set_device_rate;
  last_rx = 5;
  last_session = some 77;
  restarted = false;
}

-- Outside takes every event and packet.
abbrev outside : Outside
outside = record {
  status = λ event. true;
  tx = λ id packet. true;
  port = λ packet. true;
  connect = none;
  reset_accepted = true;
  target_accepted = true;
  too_far = λ target value. false;
  reconnect_timeout = none;
}

abbrev set_reply : RpcReplyPayload
set_reply = record { id = 0x102; reply = [] }

abbrev awaits_set : ProxyDevice
awaits_set = record serial_device { rate_change_state = waiting_new_rate }

internal_reply-Answers_example :
    (next : RateChange) × (internal_reply outside (new false) (some awaits_set) set_reply
      ≡ ok (record (new false) {
        device = some (record awaits_set { rate_change_state = next });
        events = told false (reply_events (λ target value. false) true awaits_set set_reply);
      }))
    × Answers (λ target value. false) true 400000 set_reply waiting_new_rate next
unfolding new
internal_reply-Answers_example =
    internal_reply-Answers outside (λ e. refl) (new false) awaits_set set_reply serial_rates refl
      (inr refl)

-- The proxy with that request in flight, and its client.
abbrev asked_core : ProxyCore
asked_core = record (new false) { rpcs = in_flight; clients = (1, client) ∷ [] }

-- The error comes from the root of the client's subtree, under its own id.
asked_gets_error :
    errors_given ((1, client) ∷ []) timeout ((0, entry) ∷ [])
    ≡ (1, make_rpc_error 7 timeout (record { route = [] })) ∷ []
unfolding errors_given error_given given_to offered Client.send lookup Client.scoped_route
    Client.send_scoped wants relative_route
asked_gets_error = refl

abbrev from_client : List Packet
from_client =
    request_packet
    ∷ record { payload = heartbeat (session 5); routing = record { route = [] }; ttl = 0 }
    ∷ request_packet
    ∷ []
