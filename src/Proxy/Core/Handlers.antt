-- ===== src/Proxy/Core/Handlers.antt =====
-- What the main loop of `ProxyCore::run` in twinleaf/src/tio/proxy_core.rs does before it waits, and
-- with what is then ready.
use twinleaf_rust.Shared.{
  ℕ, suc, ◌+◌, Bool, true, false, ◌||◌, List, [], ◌∷◌, ◌==◌, if◌then◌else◌, length, Result, ok, err,
  ◌>>=◌, Option, some, none, lookup, insert,
}
use twinleaf_rust.Port.Errors.{RecvError, protocol}
use twinleaf_rust.Proto.Heartbeat.{session}
use twinleaf_rust.Proto.Limits.{text}
use twinleaf_rust.Proto.Packet.{Packet}
use twinleaf_rust.Proto.Payload.{Payload, rpc_reply, rpc_error, heartbeat}
use twinleaf_rust.Proto.Rpc.Reply.{RpcReplyPayload}
use twinleaf_rust.Proxy.Client.{ProxyClient}
use twinleaf_rust.Proxy.Core.{
  ProxyCore, Outside, Halt, panicked, finished, send_event, send_events, drop_client, drop_all,
  client_send,
}
use twinleaf_rust.Proxy.Event.{
  sensor_disconnected, exiting, protocol_error, fatal_error, new_client, rpc_restored,
  rpc_restore_not_found, rpc_client_not_found, client_send_failed, root_device_restarted,
}
use twinleaf_rust.Proto.Rpc.ErrorReply.{RpcErrorPayload}
use twinleaf_rust.Proxy.Rates.Events.{reply_events, error_events}
use twinleaf_rust.Proxy.Rates.{
  RateChange, do_nothing, waiting_for_session, ProxyDevice, session_seen, is_new_session,
  internal_rpc_reply, internal_rpc_error, query_rate_rpc_id, set_rate_rpc_id,
}
use twinleaf_rust.Proxy.Rpcs.{rpc_restore}

-- The id on the wire of an answer to an RPC, and the answer under another id.
unfoldable pub wire_id_of : Payload → Option ℕ
wire_id_of (rpc_reply rep) = some rep.id
wire_id_of (rpc_error e) = some e.id
wire_id_of payload = none

unfoldable pub with_id : ℕ → Payload → Payload
with_id id (rpc_reply rep) = rpc_reply (record rep { id = id })
with_id id (rpc_error e) = rpc_error (record e { id = id })
with_id id payload = payload

abbrev pub given_up : Option ProxyDevice → Option ProxyDevice
given_up none = none
given_up (some d) = some (internal_rpc_error d)

-- `ProxyDevice::try_recv`, for a device whose rate is not static: a packet or text is a sign of
-- life, and a heartbeat of the root device tells its session.
unfoldable pub has_static_rate : RateChange → Bool
has_static_rate do_nothing = true
has_static_rate state = false

unfoldable pub root_session : Packet → Option ℕ
root_session packet = elim packet.payload [
  | heartbeat (session id) ↦ if length packet.routing.route == 0 then some id else none
  | _ ↦ none
]

unfoldable pub heard_packet : ProxyDevice → Option ℕ → ProxyDevice
unfolding session_seen
heard_packet d none = d
heard_packet d (some id) = session_seen d id

unfoldable pub heard : ProxyDevice → ℕ → Result Packet RecvError → ProxyDevice
unfolding heard_packet root_session
heard d now (ok packet) = record (heard_packet d (root_session packet)) { last_rx = now }
heard d now (err (protocol (text t))) = record d { last_rx = now }
heard d now (err e) = d

unfoldable pub is_restart : ProxyDevice → Option ℕ → Bool
is_restart d none = false
is_restart d (some id) = elim d.rate_change_state [
  | waiting_for_session ↦ false
  | _ ↦ is_new_session d.last_session id
]

unfoldable pub restarts : ProxyDevice → Result Packet RecvError → Bool
unfolding is_restart
restarts d (ok packet) = is_restart d (root_session packet)
restarts d (err e) = false

unfoldable pub wait_for : Option ℕ → ℕ
wait_for (some t) = t
wait_for none = 0

module _ (o : Outside) where
  unfoldable pub internal_reply :
      ProxyCore → Option ProxyDevice → RpcReplyPayload → Result ProxyCore Halt
  unfolding internal_rpc_reply send_events reply_events
  internal_reply p none rep =
      if rep.id == query_rate_rpc_id || rep.id == set_rate_rpc_id then ok p else err panicked
  internal_reply p (some d) rep = do
    p ← send_events o p (reply_events o.too_far o.target_accepted d rep)
    elim (internal_rpc_reply o.too_far o.target_accepted d rep) [
      | none ↦ err panicked
      | some d' ↦ ok (record p { device = some d' })
    ]

  unfoldable pub internal_error : ProxyCore → RpcErrorPayload → Result ProxyCore Halt
  unfolding internal_rpc_error send_events error_events
  internal_error p e = do
    q ← send_events o p (error_events e p.device)
    ok (record q { device = given_up p.device })

  unfoldable pub internal_answered : ProxyCore → Payload → Result ProxyCore Halt
  unfolding internal_reply internal_error
  internal_answered p (rpc_reply rep) = internal_reply p p.device rep
  internal_answered p (rpc_error e) = internal_error p e
  internal_answered p payload = err panicked

  -- A client that does not take its packet is dropped.
  unfoldable pub after_send : ProxyCore × Bool → ℕ → Result ProxyCore Halt
  unfolding send_event drop_client
  after_send (p, false) client_id = ok p
  after_send (p, true) client_id = do
    p ← send_event o p (client_send_failed client_id)
    drop_client o p client_id

  -- An answer goes to the client that asked, under the client's own id.
  unfoldable pub answer_client :
      ProxyCore → Packet → ℕ → ℕ × ℕ → Option ProxyClient → Result ProxyCore Halt
  unfolding after_send client_send send_event
  answer_client p packet wire_id (client_id, rpc_id) none =
      send_event o p (rpc_client_not_found client_id)
  answer_client p packet wire_id (client_id, rpc_id) (some client) = do
    p ← send_event o p (rpc_restored wire_id (client_id, rpc_id))
    after_send (client_send o p client_id client packet) client_id

  unfoldable pub answered : ProxyCore → Packet → ℕ → Option (ℕ × ℕ) → Result ProxyCore Halt
  unfolding answer_client internal_answered with_id
  answered p packet wire_id none = send_event o p (rpc_restore_not_found wire_id)
  answered p packet wire_id (some (client_id, rpc_id)) =
      let answer = record packet { payload = with_id rpc_id packet.payload } in
      if client_id == 0
      then internal_answered p answer.payload
      else answer_client p answer wire_id (client_id, rpc_id) (lookup client_id p.clients)

  -- Any other packet goes to every client.
  unfoldable pub broadcast_loop :
      ProxyCore → Packet → List (ℕ × ProxyClient) → Result (ProxyCore × List ℕ) Halt
  unfolding client_send send_event
  broadcast_loop p packet [] = ok (p, [])
  broadcast_loop p packet ((client_id, client) ∷ clients) =
      let (p', failed) = client_send o p client_id client packet in
      elim failed [
        | false ↦ broadcast_loop p' packet clients
        | true ↦ (do
          q ← send_event o p' (client_send_failed client_id)
          (r, to_drop) ← broadcast_loop q packet clients
          ok (r, client_id ∷ to_drop))
      ]

  unfoldable pub broadcast : ProxyCore → Packet → Result ProxyCore Halt
  unfolding broadcast_loop drop_all
  broadcast p packet = do (p, to_drop) ← broadcast_loop p packet p.clients; drop_all o p to_drop

  unfoldable pub on_packet : ProxyCore → Packet → Result ProxyCore Halt
  unfolding wire_id_of answered broadcast rpc_restore
  on_packet p packet = elim (wire_id_of packet.payload) [
    | none ↦ broadcast p packet
    | some wire_id ↦
        let (rpcs, found) = rpc_restore p.rpcs wire_id packet.routing in
        answered (record p { rpcs = rpcs }) packet wire_id found
  ]

  unfoldable pub try_recv :
      ProxyCore → ProxyDevice → ℕ → Result Packet RecvError → Result ProxyCore Halt
  unfolding heard restarts send_event has_static_rate
  try_recv p d now found =
      if has_static_rate d.rate_change_state
      then ok p
      else (let p' = record p { device = some (heard d now found) } in
          if restarts d found then send_event o p' root_device_restarted else ok p')

  unfoldable pub on_found : ProxyCore → Result Packet RecvError → Result ProxyCore Halt
  unfolding on_packet
  on_found p (ok packet) = on_packet p packet
  on_found p (err (protocol e)) = send_event o p (protocol_error e)
  on_found p (err e) = do p ← send_event o p (fatal_error e); err finished

  -- The device's channel until it is empty, or its other end is gone.
  unfoldable pub on_device :
      ProxyCore → ℕ → List (Result Packet RecvError) → Bool → Result ProxyCore Halt
  unfolding try_recv on_found wait_for
  on_device p now [] false = ok p
  on_device p now [] true = elim p.device [
    | none ↦ ok p
    | some d ↦
        send_event o
          (record p { device = none; device_timeout = now + wait_for o.reconnect_timeout })
          sensor_disconnected
  ]
  on_device p now (found ∷ later) gone = elim p.device [
    | none ↦ ok p
    | some d ↦ (do p ← try_recv p d now found; p ← on_found p found; on_device p now later gone)
  ]

  -- The queue of new clients until it is empty, or its other end is gone.
  unfoldable pub on_new_clients : ProxyCore → List ProxyClient → Bool → Result ProxyCore Halt
  unfolding send_event
  on_new_clients p [] false = ok p
  on_new_clients p [] true = do p ← send_event o p exiting; err finished
  on_new_clients p (client ∷ clients) gone = do
    q ← send_event o p (new_client p.next_client_id)
    let r = record q {
      clients = insert p.next_client_id client q.clients;
      next_client_id = suc p.next_client_id;
    }
    on_new_clients r clients gone
